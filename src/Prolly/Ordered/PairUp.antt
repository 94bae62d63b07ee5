-- ===== src/Prolly/Ordered/PairUp.antt =====
-- Two ascending lists walked together give the elements of both, paired by key.
use acetone.Prelude.{by_order}
use acetone.Prelude.{List, [], ◌∷◌, Option, none, some}
use acetone.Prelude.{Ordering}
use acetone.Prelude.Bytes.{bytes_cmp, eq_of_bytes_cmp}
use acetone.Prolly.Types.{Bytes}
use acetone.Prolly.Ordered.{lt_of_gt, Above, IsAscending, Above-weaken}

pub record Pair (A B : Type 0) : Type 0 where
  pub key : Bytes
  pub left : Option A
  pub right : Option B

abbrev pub pair_key : {A B : Type 0} → Pair A B → Bytes
pair_key p = p.key

abbrev pub left_of : {A B : Type 0} → Option (Pair A B) → Option A
left_of none = none
left_of (some p) = p.left

abbrev pub right_of : {A B : Type 0} → Option (Pair A B) → Option B
right_of none = none
right_of (some p) = p.right

module _ {A B : Type 0} (key_a : A → Bytes) (key_b : B → Bytes) where
  abbrev pub only_left : A → Pair A B
  only_left x = record { key = key_a x; left = some x; right = none }

  abbrev pub only_right : B → Pair A B
  only_right y = record { key = key_b y; left = none; right = some y }

  unfoldable pub pair_up : List A → List B → List (Pair A B)
  pair_up [] [] = []
  pair_up (x ∷ a) [] = only_left x ∷ pair_up a []
  pair_up [] (y ∷ b) = only_right y ∷ pair_up [] b
  pair_up (x ∷ a) (y ∷ b) = elim (bytes_cmp (key_a x) (key_b y)) [
    | Ordering.lt ↦ only_left x ∷ pair_up a (y ∷ b)
    | Ordering.eq ↦ record { key = key_a x; left = some x; right = some y } ∷ pair_up a b
    | Ordering.gt ↦ only_right y ∷ pair_up (x ∷ a) b
  ]

  pub Above-pair_up :
      (k : Bytes) (a : List A) (b : List B)
      → Above key_a k a
      → Above key_b k b
      → Above pair_key k (pair_up a b)
  unfolding pair_up
  Above-pair_up k [] [] p q = tt
  Above-pair_up k (x ∷ a) [] (p, ps) q = (p, Above-pair_up k a [] ps q)
  Above-pair_up k [] (y ∷ b) p (q, qs) = (q, Above-pair_up k [] b p qs)
  Above-pair_up k (x ∷ a) (y ∷ b) (p, ps) (q, qs) =
      by_order (bytes_cmp (key_a x) (key_b y))
        (λ h. rw (pair_up, h) (p, Above-pair_up k a (y ∷ b) ps (q, qs)))
        (λ h. rw (pair_up, h) (p, Above-pair_up k a b ps qs))
        (λ h. rw (pair_up, h) (q, Above-pair_up k (x ∷ a) b (p, ps) qs))

  pub pair_up-IsAscending :
      (a : List A) (b : List B)
      → IsAscending key_a a
      → IsAscending key_b b
      → IsAscending pair_key (pair_up a b)
  unfolding pair_up IsAscending
  pair_up-IsAscending [] [] p q = tt
  pair_up-IsAscending (x ∷ a) [] (p, ps) q =
      (Above-pair_up (key_a x) a [] p tt, pair_up-IsAscending a [] ps tt)
  pair_up-IsAscending [] (y ∷ b) p (q, qs) =
      (Above-pair_up (key_b y) [] b tt q, pair_up-IsAscending [] b tt qs)
  pair_up-IsAscending (x ∷ a) (y ∷ b) (p, ps) (q, qs) =
      by_order (bytes_cmp (key_a x) (key_b y))
        (λ h.
          rw (pair_up, h)
            (
              Above-pair_up (key_a x) a (y ∷ b) p (h, Above-weaken key_b (key_a x) (key_b y) b h q),
              pair_up-IsAscending a (y ∷ b) ps (q, qs),
            ))
        (λ h.
          rw (pair_up, h)
            (
              Above-pair_up (key_a x) a b p (rw (eq_of_bytes_cmp (key_a x) (key_b y) h) q),
              pair_up-IsAscending a b ps qs,
            ))
        (λ h.
          let above = lt_of_gt (key_a x) (key_b y) h in
          rw (pair_up, h)
            (
              Above-pair_up (key_b y) (x ∷ a) b
                  (above, Above-weaken key_a (key_b y) (key_a x) a above p) q,
              pair_up-IsAscending (x ∷ a) b (p, ps) qs,
            ))
