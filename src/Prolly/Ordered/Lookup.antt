-- ===== src/Prolly/Ordered/Lookup.antt =====
-- What is found in two lists walked together.
use acetone.Prelude.{by_test, by_order}
use acetone.Prelude.{◌≡◌, refl, sym, ◌∙◌, ap, List, [], ◌∷◌, Option, none, some}
use acetone.Prelude.{true, false}
use acetone.Prelude.Bytes.{bytes_cmp, eq_of_bytes_cmp}
use acetone.Prolly.Types.{Bytes, bytes_eq}
use acetone.Prolly.Ordered.{
  lt_of_gt, eq_of_bytes_eq, Above, IsAscending, find, Above-weaken, find-Above, find-hit, find-skip,
}
use acetone.Prolly.Ordered.PairUp.{Pair, pair_key, pair_up, only_left, only_right}

abbrev pub paired : {A B : Type 0} → Bytes → Option A → Option B → Option (Pair A B)
paired k none none = none
paired k (some x) y = some (record { key = k; left = some x; right = y })
paired k none (some y) = some (record { key = k; left = none; right = some y })

module _ {A B : Type 0} (key_a : A → Bytes) (key_b : B → Bytes) where
  passed :
      (k : Bytes) (p : Pair A B) (ps : List (Pair A B)) (x y : Option A) (z w : Option B)
      → bytes_eq k p.key ≡ false
      → find pair_key k ps ≡ paired k x z
      → y ≡ x
      → w ≡ z
      → find pair_key k (p ∷ ps) ≡ paired k y w
  passed k p ps x y z w skip found ey ew = find-skip pair_key k p ps skip ∙ found ∙ rw (ey, ew) refl

  hit :
      (k : Bytes) (p : Pair A B) (ps : List (Pair A B)) (y : Option A) (w : Option B)
      → bytes_eq k p.key ≡ true
      → paired p.key y w ≡ some p
      → find pair_key k (p ∷ ps) ≡ paired k y w
  hit k p ps y w h e =
      find-hit pair_key k p ps h ∙ sym e ∙ ap (λ j. paired j y w) (sym (eq_of_bytes_eq k p.key h))

  left_first :
      (k : Bytes) (x : A) (a : List A) (b : List B)
      → Above key_b (key_a x) b
      → find pair_key k (pair_up key_a key_b a b) ≡ paired k (find key_a k a) (find key_b k b)
      → find pair_key k (only_left key_a key_b x ∷ pair_up key_a key_b a b)
        ≡ paired k (find key_a k (x ∷ a)) (find key_b k b)
  left_first k x a b p found =
      by_test (bytes_eq k (key_a x))
        (λ h.
          let none_there : find key_b k b ≡ none =
            find-Above key_b k b (rw (sym (eq_of_bytes_eq k (key_a x) h)) at p) in
          rw (find-hit key_a k x a h, none_there) (hit k _ _ (some x) none h refl))
        (λ h. passed k _ _ _ _ _ _ h found (find-skip key_a k x a h) refl)

  right_first :
      (k : Bytes) (y : B) (a : List A) (b : List B)
      → Above key_a (key_b y) a
      → find pair_key k (pair_up key_a key_b a b) ≡ paired k (find key_a k a) (find key_b k b)
      → find pair_key k (only_right key_a key_b y ∷ pair_up key_a key_b a b)
        ≡ paired k (find key_a k a) (find key_b k (y ∷ b))
  right_first k y a b p found =
      by_test (bytes_eq k (key_b y))
        (λ h.
          let none_there : find key_a k a ≡ none =
            find-Above key_a k a (rw (sym (eq_of_bytes_eq k (key_b y) h)) at p) in
          rw (find-hit key_b k y b h, none_there) (hit k _ _ none (some y) h refl))
        (λ h. passed k _ _ _ _ _ _ h found refl (find-skip key_b k y b h))

  pub find-pair_up :
      (k : Bytes) (a : List A) (b : List B)
      → IsAscending key_a a
      → IsAscending key_b b
      → find pair_key k (pair_up key_a key_b a b) ≡ paired k (find key_a k a) (find key_b k b)
  unfolding pair_up IsAscending
  find-pair_up k [] [] pa pb = unfold find in refl
  find-pair_up k (x ∷ a) [] (p, pa) pb = left_first k x a [] tt (find-pair_up k a [] pa tt)
  find-pair_up k [] (y ∷ b) pa (q, pb) = right_first k y [] b tt (find-pair_up k [] b tt pb)
  find-pair_up k (x ∷ a) (y ∷ b) (p, pa) (q, pb) =
      by_order (bytes_cmp (key_a x) (key_b y))
        (λ h.
          rw (pair_up, h)
            (left_first k x a (y ∷ b) (h, Above-weaken key_b (key_a x) (key_b y) b h q)
              (find-pair_up k a (y ∷ b) pa (q, pb))))
        (λ h.
          rw (pair_up, h)
            (by_test (bytes_eq k (key_a x))
              (λ e.
                let also : bytes_eq k (key_b y) ≡ true =
                  rw (eq_of_bytes_cmp (key_a x) (key_b y) h) at e in
                rw (find-hit key_a k x a e, find-hit key_b k y b also)
                  (hit k _ _ (some x) (some y) e refl))
              (λ e.
                let also : bytes_eq k (key_b y) ≡ false =
                  rw (eq_of_bytes_cmp (key_a x) (key_b y) h) at e in
                passed k _ _ _ _ _ _ e (find-pair_up k a b pa pb) (find-skip key_a k x a e)
                  (find-skip key_b k y b also))))
        (λ h.
          let above = lt_of_gt (key_a x) (key_b y) h in
          rw (pair_up, h)
            (right_first k y (x ∷ a) b (above, Above-weaken key_a (key_b y) (key_a x) a above p)
              (find-pair_up k (x ∷ a) b (p, pa) pb)))
