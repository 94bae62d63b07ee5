-- ===== src/Graph/CellMerge/Labels.antt =====
-- The normal form of labels: the same ones, in strictly ascending canonical order.
use acetone.Prelude.{◌||◌, List, [], ◌∷◌, by_test, by_order, arith, swap}
use acetone.Prelude.{lt, eq, gt, ◌≡◌, ◌≢◌, refl, ap, sym, ◌∙◌, subst}
use acetone.Prelude.Bytes.{eq_of_bytes_cmp, bytes_cmp-swap}
use acetone.Cbor.{canonical_str_cmp}
use acetone.Prolly.Types.{Bytes, bytes_eq}
use acetone.Prolly.Ordered.{eq_of_bytes_eq, bytes_eq_self}
use acetone.Records.{place, sort, dedup_behind, dedup, normalise_strings}
use acetone.Graph.CellMerge.{contains}
use acetone.Graph.CellMerge.Names.{first_or, twice_or}

canonical_str_cmp-swap : (s t : Bytes) → canonical_str_cmp t s ≡ swap (canonical_str_cmp s t)
unfolding canonical_str_cmp
canonical_str_cmp-swap s t = ground (arith, bytes_cmp-swap s t)

eq_of_canonical_str_cmp : (s t : Bytes) → canonical_str_cmp s t ≡ eq → s ≡ t
unfolding canonical_str_cmp
eq_of_canonical_str_cmp s t e = eq_of_bytes_cmp s t (ground arith)

-- Each element is not above, or is below, the next one.
abbrev IsSortedFrom : Bytes → List Bytes → Type 0
IsSortedFrom s [] = Unit
IsSortedFrom s (t ∷ ts) = (canonical_str_cmp s t ≢ gt) × IsSortedFrom t ts

abbrev IsSorted : List Bytes → Type 0
IsSorted [] = Unit
IsSorted (s ∷ ss) = IsSortedFrom s ss

abbrev IsCanonicalFrom : Bytes → List Bytes → Type 0
IsCanonicalFrom s [] = Unit
IsCanonicalFrom s (t ∷ ts) = (canonical_str_cmp s t ≡ lt) × IsCanonicalFrom t ts

abbrev pub IsCanonical : List Bytes → Type 0
IsCanonical [] = Unit
IsCanonical (s ∷ ss) = IsCanonicalFrom s ss

module _ (s t : Bytes) (ts : List Bytes) where
  place_behind : canonical_str_cmp s t ≡ gt → place s (t ∷ ts) ≡ t ∷ place s ts
  unfolding place
  place_behind h = rw (place, h) refl

  place_before : canonical_str_cmp s t ≢ gt → place s (t ∷ ts) ≡ s ∷ t ∷ ts
  unfolding place
  place_before h =
      by_order (canonical_str_cmp s t) (λ e. rw (place, e) refl) (λ e. rw (place, e) refl)
        (λ e. absurd (h e))

not_above : (s t : Bytes) → canonical_str_cmp s t ≡ gt → canonical_str_cmp t s ≢ gt
not_above s t h e = cc (canonical_str_cmp-swap s t, h, e)

place-IsSortedFrom :
    (u s : Bytes) (ts : List Bytes)
    → canonical_str_cmp u s ≢ gt
    → IsSortedFrom u ts
    → IsSortedFrom u (place s ts)
place-IsSortedFrom u s [] h sorted = unfold place in (h, tt)
place-IsSortedFrom u s (t ∷ ts) h (first, sorted) =
    by_order (canonical_str_cmp s t)
      (λ e.
        let below : canonical_str_cmp s t ≢ gt = λ g. cc (e, g) in
        rw (place_before s t ts below) (h, (below, sorted)))
      (λ e.
        let below : canonical_str_cmp s t ≢ gt = λ g. cc (e, g) in
        rw (place_before s t ts below) (h, (below, sorted)))
      (λ e. rw (place_behind s t ts e) (first, place-IsSortedFrom t s ts (not_above s t e) sorted))

place-IsSorted : (s : Bytes) (ts : List Bytes) → IsSorted ts → IsSorted (place s ts)
place-IsSorted s [] sorted = unfold place in tt
place-IsSorted s (t ∷ ts) sorted =
    by_order (canonical_str_cmp s t)
      (λ e.
        let below : canonical_str_cmp s t ≢ gt = λ g. cc (e, g) in
        rw (place_before s t ts below) (below, sorted))
      (λ e.
        let below : canonical_str_cmp s t ≢ gt = λ g. cc (e, g) in
        rw (place_before s t ts below) (below, sorted))
      (λ e. rw (place_behind s t ts e) (place-IsSortedFrom t s ts (not_above s t e) sorted))

sort-IsSorted : (ss : List Bytes) → IsSorted (sort ss)
unfolding sort
sort-IsSorted [] = tt
sort-IsSorted (s ∷ ss) = place-IsSorted s (sort ss) (sort-IsSorted ss)

dedup_behind-IsCanonicalFrom :
    (s : Bytes) (ts : List Bytes) → IsSortedFrom s ts → IsCanonicalFrom s (dedup_behind s ts)
unfolding dedup_behind
dedup_behind-IsCanonicalFrom s [] sorted = tt
dedup_behind-IsCanonicalFrom s (t ∷ ts) (first, sorted) =
    by_test (bytes_eq t s)
      (λ e. rw e (
        dedup_behind-IsCanonicalFrom s ts
          (subst (λ u. IsSortedFrom u ts) (eq_of_bytes_eq t s e) sorted)))
      (λ e.
        let below : canonical_str_cmp s t ≡ lt =
          by_order (canonical_str_cmp s t) (λ o. o)
            (λ o. absurd (cc (rw (eq_of_canonical_str_cmp s t o, bytes_eq_self t) at e)))
            (λ o. absurd (first o)) in
        rw e (below, dedup_behind-IsCanonicalFrom t ts sorted))

dedup-IsCanonical : (ss : List Bytes) → IsSorted ss → IsCanonical (dedup ss)
unfolding dedup
dedup-IsCanonical [] sorted = tt
dedup-IsCanonical (s ∷ ss) sorted = dedup_behind-IsCanonicalFrom s ss sorted

pub normalise_strings-IsCanonical : (ss : List Bytes) → IsCanonical (normalise_strings ss)
unfolding normalise_strings
normalise_strings-IsCanonical ss = dedup-IsCanonical (sort ss) (sort-IsSorted ss)

contains-place :
    (k s : Bytes) (ts : List Bytes) → contains (place s ts) k ≡ (bytes_eq k s || contains ts k)
unfolding contains
contains-place k s [] = unfold place in refl
contains-place k s (t ∷ ts) =
    by_order (canonical_str_cmp s t) (λ e. rw (place_before s t ts (λ g. cc (e, g))) refl)
      (λ e. rw (place_before s t ts (λ g. cc (e, g))) refl)
      (λ e.
        rw (place_behind s t ts e, contains-place k s ts)
          (first_or (bytes_eq k t) (bytes_eq k s) (contains ts k)))

contains-sort : (k : Bytes) (ss : List Bytes) → contains (sort ss) k ≡ contains ss k
unfolding contains sort
contains-sort k [] = refl
contains-sort k (s ∷ ss) =
    contains-place k s (sort ss) ∙ ap (λ b. bytes_eq k s || b) (contains-sort k ss)

contains-dedup_behind :
    (k s : Bytes) (ts : List Bytes)
    → (bytes_eq k s || contains (dedup_behind s ts) k) ≡ (bytes_eq k s || contains ts k)
unfolding contains dedup_behind
contains-dedup_behind k s [] = refl
contains-dedup_behind k s (t ∷ ts) =
    by_test (bytes_eq t s)
      (λ e.
        rw (e, eq_of_bytes_eq t s e)
          (contains-dedup_behind k s ts ∙ sym (twice_or (bytes_eq k s) (contains ts k))))
      (λ e. rw e (ap (λ b. bytes_eq k s || b) (contains-dedup_behind k t ts)))

contains-dedup : (k : Bytes) (ss : List Bytes) → contains (dedup ss) k ≡ contains ss k
unfolding contains dedup
contains-dedup k [] = refl
contains-dedup k (s ∷ ss) = contains-dedup_behind k s ss

pub contains-normalise_strings :
    (k : Bytes) (ss : List Bytes) → contains (normalise_strings ss) k ≡ contains ss k
unfolding normalise_strings
contains-normalise_strings k ss = contains-dedup k (sort ss) ∙ contains-sort k ss
