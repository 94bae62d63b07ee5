-- ===== src/Prolly/Diff/Changes.antt =====
-- The differences of two maps, said of their lists of entries, and what is found in them.
use acetone.Prelude.{by_test}
use acetone.Prelude.{lt, eq, gt}
use acetone.Prelude.Bytes.{bytes_cmp}
use acetone.Prelude.{
  ◌≡◌, refl, sym, ap, ◌∙◌, true, false, not, if◌then◌else◌, List, [], ◌∷◌, Option, none, some, All,
}
use acetone.Prolly.Types.{Bytes, bytes_eq, Entry, DiffEntry, Diff, ended, yields}
use acetone.Prolly.Ordered.{IsAscending, find, All-find}
use acetone.Prolly.Ordered.PairUp.{Pair, pair_key, pair_up, pair_up-IsAscending}
use acetone.Prolly.Ordered.Lookup.{paired, find-pair_up}
use acetone.Prolly.Ordered.FilterMap.{
  filter_map, made, KeepsKeys, filter_map-IsAscending, find-filter_map,
}

abbrev pub entry_key : Entry → Bytes
entry_key e = e.key

abbrev pub diff_key : DiffEntry → Bytes
diff_key e = e.key

abbrev pub value_of : Option Entry → Option Bytes
value_of none = none
value_of (some e) = some e.value

-- A map read at a key.
abbrev pub value_at : Bytes → List Entry → Option Bytes
value_at k es = value_of (find entry_key k es)

-- The difference at a key of a value before and a value after, if there is one.
abbrev pub change_at : Bytes → Option Bytes → Option Bytes → Option DiffEntry
change_at k none none = none
change_at k (some v) none = some (record { key = k; before = some v; after = none })
change_at k none (some w) = some (record { key = k; before = none; after = some w })
change_at k (some v) (some w) =
    if not (bytes_eq v w) then some (record { key = k; before = some v; after = some w }) else none

abbrev pub change : Pair Entry Entry → Option DiffEntry
change p = change_at p.key (value_of p.left) (value_of p.right)

unfoldable pub changes : List Entry → List Entry → List DiffEntry
unfolding pair_up filter_map
changes a b = filter_map change (pair_up entry_key entry_key a b)

abbrev pub of_list : List DiffEntry → Diff
of_list [] = ended
of_list (e ∷ es) = yields e (of_list es)

change_at-key :
    (k : Bytes) (x y : Option Bytes) (e : DiffEntry) → change_at k x y ≡ some e → e.key ≡ k
change_at-key k none none e h = cc
change_at-key k (some v) none e h = cc
change_at-key k none (some w) e h = cc
change_at-key k (some v) (some w) e h =
    by_test (bytes_eq v w) (λ same. cc (rw same at h)) (λ differ. cc (rw differ at h))

change-KeepsKeys : KeepsKeys pair_key diff_key change
change-KeepsKeys p e h = change_at-key p.key (value_of p.left) (value_of p.right) e h

-- What stands at a key of two maps walked together.
change-paired :
    (k : Bytes) (x y : Option Entry)
    → made change (paired k x y) ≡ change_at k (value_of x) (value_of y)
change-paired k none none = refl
change-paired k (some x) none = refl
change-paired k none (some y) = refl
change-paired k (some x) (some y) = refl

pub find-changes :
    (k : Bytes) (a b : List Entry)
    → IsAscending entry_key a
    → IsAscending entry_key b
    → find diff_key k (changes a b) ≡ change_at k (value_at k a) (value_at k b)
unfolding changes
find-changes k a b p q =
    find-filter_map pair_key diff_key change k (pair_up entry_key entry_key a b) change-KeepsKeys
      (pair_up-IsAscending entry_key entry_key a b p q)
    ∙ rw (find-pair_up entry_key entry_key k a b p q)
        (change-paired k (find entry_key k a) (find entry_key k b))

pub changes-IsAscending :
    (a b : List Entry)
    → IsAscending entry_key a
    → IsAscending entry_key b
    → IsAscending diff_key (changes a b)
unfolding changes
changes-IsAscending a b p q =
    filter_map-IsAscending pair_key diff_key change (pair_up entry_key entry_key a b)
      change-KeepsKeys (pair_up-IsAscending entry_key entry_key a b p q)

change_at-before :
    (k : Bytes) (x y : Option Bytes) (e : DiffEntry) → change_at k x y ≡ some e → e.before ≡ x
change_at-before k none none e h = cc
change_at-before k (some v) none e h = cc
change_at-before k none (some w) e h = cc
change_at-before k (some v) (some w) e h =
    by_test (bytes_eq v w) (λ same. cc (rw same at h)) (λ differ. cc (rw differ at h))

change_at-after :
    (k : Bytes) (x y : Option Bytes) (e : DiffEntry) → change_at k x y ≡ some e → e.after ≡ y
change_at-after k none none e h = cc
change_at-after k (some v) none e h = cc
change_at-after k none (some w) e h = cc
change_at-after k (some v) (some w) e h =
    by_test (bytes_eq v w) (λ same. cc (rw same at h)) (λ differ. cc (rw differ at h))

-- Each difference has the value of its key in the first map.
pub changes-before :
    (a b : List Entry)
    → IsAscending entry_key a
    → IsAscending entry_key b
    → All (λ e. e.before ≡ value_at e.key a) (changes a b)
changes-before a b p q = All-find diff_key _ (changes a b) (changes-IsAscending a b p q) (λ k e h.
    let at : change_at k (value_at k a) (value_at k b) ≡ some e =
      sym (find-changes k a b p q) ∙ h in
    change_at-before k (value_at k a) (value_at k b) e at
    ∙ ap (λ j. value_at j a) (sym (change_at-key k (value_at k a) (value_at k b) e at)))

-- The differences, front by front.
abbrev pub removed : Entry → DiffEntry
removed x = record { key = x.key; before = some x.value; after = none }

abbrev pub added : Entry → DiffEntry
added y = record { key = y.key; before = none; after = some y.value }

abbrev pub changed : Entry → Entry → DiffEntry
changed x y = record { key = x.key; before = some x.value; after = some y.value }

module _ (x y : Entry) (a b : List Entry) where
  pub changes-lt :
      bytes_cmp x.key y.key ≡ lt → changes (x ∷ a) (y ∷ b) ≡ removed x ∷ changes a (y ∷ b)
  unfolding changes filter_map
  changes-lt h = rw (pair_up, h) refl

  pub changes-gt :
      bytes_cmp x.key y.key ≡ gt → changes (x ∷ a) (y ∷ b) ≡ added y ∷ changes (x ∷ a) b
  unfolding changes filter_map
  changes-gt h = rw (pair_up, h) refl

  pub changes-differ :
      bytes_cmp x.key y.key ≡ eq
      → bytes_eq x.value y.value ≡ false
      → changes (x ∷ a) (y ∷ b) ≡ changed x y ∷ changes a b
  unfolding changes filter_map
  changes-differ h differ = rw (pair_up, h) (rw differ refl)

  pub changes-same :
      bytes_cmp x.key y.key ≡ eq
      → bytes_eq x.value y.value ≡ true
      → changes (x ∷ a) (y ∷ b) ≡ changes a b
  unfolding changes filter_map
  changes-same h same = rw (pair_up, h) (rw same refl)
