-- ===== src/Prolly/Ordered.antt =====
-- Lists in strictly ascending order of their keys: lookups, and two such lists walked together, which
-- is what the loops of diff.rs, merge.rs and tree.rs do.
pub mod PairUp
pub mod Lookup
pub mod FilterMap
use acetone.Prelude.{by_test}
use acetone.Prelude.{◌≡◌, refl, ◌∙◌, ap, List, [], ◌∷◌, Option, none, some, All, swap}
use acetone.Prelude.{Bool, true, false, if◌then◌else◌, Ordering, lt, eq, gt}
use acetone.Prelude.Bytes.{
  bytes_cmp, bytes_cmp_self, bytes_cmp-swap, eq_of_bytes_cmp, bytes_cmp_trans,
}
use acetone.Prolly.Types.{Bytes, bytes_eq, is_eq}

pub lt_of_gt : (j k : Bytes) → bytes_cmp j k ≡ gt → bytes_cmp k j ≡ lt
lt_of_gt j k h = bytes_cmp-swap j k ∙ ap swap h

eq_of_is_eq : (o : Ordering) → is_eq o ≡ true → o ≡ eq
eq_of_is_eq Ordering.eq h = refl
eq_of_is_eq Ordering.lt h = cc
eq_of_is_eq Ordering.gt h = cc

pub eq_of_bytes_eq : (j k : Bytes) → bytes_eq j k ≡ true → j ≡ k
eq_of_bytes_eq j k h = eq_of_bytes_cmp j k (eq_of_is_eq (bytes_cmp j k) h)

pub bytes_eq_self : (k : Bytes) → bytes_eq k k ≡ true
bytes_eq_self k = ap is_eq (bytes_cmp_self k)

pub bytes_eq_of_lt : (j k : Bytes) → bytes_cmp j k ≡ lt → bytes_eq j k ≡ false
bytes_eq_of_lt j k h = ap is_eq h

pub bytes_eq_of_gt : (j k : Bytes) → bytes_cmp k j ≡ lt → bytes_eq j k ≡ false
bytes_eq_of_gt j k h = ap is_eq (bytes_cmp-swap k j ∙ ap swap h)

module _ {A : Type 0} (key : A → Bytes) where
  abbrev pub Above : Bytes → List A → Type 0
  Above k xs = All (λ x. bytes_cmp k (key x) ≡ lt) xs

  unfoldable pub IsAscending : List A → Type 0
  IsAscending [] = Unit
  IsAscending (x ∷ xs) = Above (key x) xs × IsAscending xs

  unfoldable pub find : Bytes → List A → Option A
  find k [] = none
  find k (x ∷ xs) = if bytes_eq k (key x) then some x else find k xs

  pub Above-weaken : (j k : Bytes) (xs : List A) → bytes_cmp j k ≡ lt → Above k xs → Above j xs
  Above-weaken j k [] h p = tt
  Above-weaken j k (x ∷ xs) h (p, ps) = (bytes_cmp_trans j k (key x) h p, Above-weaken j k xs h ps)

  pub find-hit :
      (k : Bytes) (x : A) (xs : List A) → bytes_eq k (key x) ≡ true → find k (x ∷ xs) ≡ some x
  unfolding find
  find-hit k x xs h = ap (λ b. if b then some x else find k xs) h

  pub find-skip :
      (k : Bytes) (x : A) (xs : List A) → bytes_eq k (key x) ≡ false → find k (x ∷ xs) ≡ find k xs
  unfolding find
  find-skip k x xs h = ap (λ b. if b then some x else find k xs) h

  pub find-Above : (k : Bytes) (xs : List A) → Above k xs → find k xs ≡ none
  unfolding find
  find-Above k [] p = refl
  find-Above k (x ∷ xs) (p, ps) = find-skip k x xs (bytes_eq_of_lt k (key x) p) ∙ find-Above k xs ps

  pub Above-find :
      (j k : Bytes) (xs : List A) (x : A) → Above j xs → find k xs ≡ some x → bytes_cmp j k ≡ lt
  unfolding find
  Above-find j k [] x p e = cc
  Above-find j k (y ∷ ys) x (p, ps) e =
      by_test (bytes_eq k (key y)) (λ h. rw (eq_of_bytes_eq k (key y) h) p)
        (λ h. Above-find j k ys x ps (rw (find-skip k y ys h) at e))

  -- What holds of all that lookups find holds of all elements.
  pub All-find {ℓ} :
      (P : A → Type ℓ) (xs : List A)
      → IsAscending xs
      → ((k : Bytes) (x : A) → find k xs ≡ some x → P x)
      → All P xs
  unfolding IsAscending
  All-find P [] asc each = tt
  All-find P (x ∷ xs) (above, asc) each = (
    each (key x) x (find-hit (key x) x xs (bytes_eq_self (key x))),
    All-find P xs asc (λ k y e.
        each k y
          (find-skip k x xs (bytes_eq_of_gt k (key x) (Above-find (key x) k xs y above e)) ∙ e)),
  )
