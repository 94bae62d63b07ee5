-- ===== src/Prolly/Ordered/FilterMap.antt =====
-- A list in which each element is kept, changed under its key, or left out: what is found in it.
use acetone.Prelude.{by_test}
use acetone.Prelude.{
  ◌≡◌, refl, sym, ◌∙◌, ap, List, [], ◌∷◌, Option, none, some, Option-cases, inl, inr, lt,
}
use acetone.Prelude.Bytes.{bytes_cmp}
use acetone.Prolly.Types.{Bytes, bytes_eq}
use acetone.Prolly.Ordered.{
  eq_of_bytes_eq, Above, IsAscending, find, find-Above, find-hit, find-skip,
}

-- The elements that `f` makes of a list, where it makes any.
abbrev pub push : {C : Type 0} → Option C → List C → List C
push none cs = cs
push (some c) cs = c ∷ cs

module _ {A C : Type 0} (f : A → Option C) where
  unfoldable pub filter_map : List A → List C
  filter_map [] = []
  filter_map (x ∷ xs) = push (f x) (filter_map xs)

  abbrev pub made : Option A → Option C
  made none = none
  made (some x) = f x

module _ {A C : Type 0} (key : A → Bytes) (key_c : C → Bytes) (f : A → Option C) where
  -- `f` keeps keys.
  abbrev pub KeepsKeys : Type 0
  KeepsKeys = (x : A) (c : C) → f x ≡ some c → key_c c ≡ key x

  push-Above :
      (k : Bytes) (x : A) (cs : List C)
      → KeepsKeys
      → bytes_cmp k (key x) ≡ lt
      → Above key_c k cs
      → Above key_c k (push (f x) cs)
  push-Above k x cs keeps p ps = elim (Option-cases (f x)) [
    | inl e ↦ rw e ps
    | inr (c, e) ↦ rw e ((rw (keeps x c e) p), ps)
  ]

  pub filter_map-Above :
      (k : Bytes) (xs : List A) → KeepsKeys → Above key k xs → Above key_c k (filter_map f xs)
  unfolding filter_map
  filter_map-Above k [] keeps p = tt
  filter_map-Above k (x ∷ xs) keeps (p, ps) =
      push-Above k x (filter_map f xs) keeps p (filter_map-Above k xs keeps ps)

  pub filter_map-IsAscending :
      (xs : List A) → KeepsKeys → IsAscending key xs → IsAscending key_c (filter_map f xs)
  unfolding filter_map IsAscending
  filter_map-IsAscending [] keeps p = tt
  filter_map-IsAscending (x ∷ xs) keeps (p, ps) = elim (Option-cases (f x)) [
    | inl e ↦ rw e (filter_map-IsAscending xs keeps ps)
    | inr (c, e) ↦
        rw e (
          rw (keeps x c e) (filter_map-Above (key x) xs keeps p),
          filter_map-IsAscending xs keeps ps,
        )
  ]

  pub find-filter_map :
      (k : Bytes) (xs : List A)
      → KeepsKeys
      → IsAscending key xs
      → find key_c k (filter_map f xs) ≡ made f (find key k xs)
  unfolding filter_map IsAscending
  find-filter_map k [] keeps p = unfold find in refl
  find-filter_map k (x ∷ xs) keeps (p, ps) =
      by_test (bytes_eq k (key x))
        (λ h. rw (find-hit key k x xs h) (elim (Option-cases (f x)) [
          | inl e ↦ rw e (
              find-Above key_c k (filter_map f xs)
                (filter_map-Above k xs keeps (rw (sym (eq_of_bytes_eq k (key x) h)) at p)))
          | inr (c, e) ↦
              rw e (find-hit key_c k c (filter_map f xs) (ap (λ j. bytes_eq k j) (keeps x c e) ∙ h))
        ]))
        (λ h. rw (find-skip key k x xs h) (elim (Option-cases (f x)) [
          | inl e ↦ rw e (find-filter_map k xs keeps ps)
          | inr (c, e) ↦ rw e (
              find-skip key_c k c (filter_map f xs) (ap (λ j. bytes_eq k j) (keeps x c e) ∙ h)
              ∙ find-filter_map k xs keeps ps)
        ]))
