-- ===== src/Graph/CellMerge.antt =====
-- crates/acetone-graph/src/cell_merge.rs: the three-way merge of the properties and of the labels of
-- one record. A `BTreeMap` is the list of its entries, and a `BTreeSet` that of its elements, in
-- ascending order; a string is its UTF-8 bytes.
pub mod Names
pub mod Labels
pub mod ValueEq
pub mod Rule
pub mod InOrder
pub mod Contract
pub mod Sides
mod Tests
use acetone.Prelude.{ℕ, Bool, true, false, not, ◌&&◌, ◌||◌, List, [], ◌∷◌, Option, none, some, map}
use acetone.Prelude.{Ordering, lt, eq, gt, if◌then◌else◌}
use acetone.Prelude.Bytes.{bytes_cmp}
use acetone.Prelude.Result.{Result, ok, ◌>>=◌}
use acetone.ValueCodec.Write.{ValueEncodeError, encode_value}
use acetone.Prolly.Types.{Bytes, bytes_eq}
use acetone.Records.{Property, NodeRecord, EdgeRecord, new_node_record, new_edge_record}
use acetone.Model.{Value}

pub record PropertyConflict : Type 0 where
  pub property : Bytes
  pub base : Option Value
  pub ours : Option Value
  pub theirs : Option Value

-- The `ValueEncode` of `GraphError`, the one error that arises here.
abbrev pub Fallible : Type 0 → Type 0
Fallible A = Result ValueEncodeError A

unfoldable pub value_eq : Value → Value → Fallible Bool
value_eq a b = do x ← encode_value a; y ← encode_value b; ok (bytes_eq x y)

unfoldable pub opt_eq : Option Value → Option Value → Fallible Bool
unfolding value_eq
opt_eq none none = ok true
opt_eq (some x) (some y) = value_eq x y
opt_eq none (some y) = ok false
opt_eq (some x) none = ok false

-- `BTreeMap::get`
unfoldable pub get : List Property → Bytes → Option Value
get [] name = none
get (p ∷ ps) name = if bytes_eq name p.name then some p.value else get ps name

-- `BTreeSet::insert`, `extend` and `contains`
unfoldable pub insert : Bytes → List Bytes → List Bytes
insert name [] = name ∷ []
insert name (n ∷ ns) = elim (bytes_cmp name n) [
  | Ordering.lt ↦ name ∷ n ∷ ns
  | Ordering.eq ↦ n ∷ ns
  | Ordering.gt ↦ n ∷ insert name ns
]

unfoldable pub extend : List Bytes → List Bytes → List Bytes
extend [] set = set
extend (name ∷ names) set = extend names (insert name set)

unfoldable pub contains : List Bytes → Bytes → Bool
contains [] name = false
contains (n ∷ ns) name = bytes_eq name n || contains ns name

abbrev pub names_of : List Property → List Bytes
names_of [] = []
names_of (p ∷ ps) = p.name ∷ names_of ps

unfoldable pub property_names : List Property → List Property → List Property → List Bytes
property_names base ours theirs =
    extend (names_of theirs) (extend (names_of ours) (extend (names_of base) []))

-- The value to hold, if any, or `none` for a conflict.
unfoldable pub resolved :
    Option Value → Option Value → Option Value → Fallible (Option (Option Value))
resolved base ours theirs = opt_eq ours theirs >>= λ agree.
    if agree
    then ok (some ours)
    else (opt_eq ours base >>= λ ours_kept.
        if ours_kept
        then ok (some theirs)
        else (opt_eq theirs base >>= λ theirs_kept.
            if theirs_kept then ok (some ours) else ok none))

pub record Merged : Type 0 where
  pub properties : List Property
  pub conflicts : List PropertyConflict

-- `conflicts.push` and `merged.insert`, before those of the names that follow.
unfoldable pub held : PropertyConflict → Option (Option Value) → Merged → Merged
held c none later = record later { conflicts = c ∷ later.conflicts }
held c (some none) later = later
held c (some (some v)) later = record later {
  properties = record { name = c.property; value = v } ∷ later.properties;
}

abbrev pub conflict_at : List Property → List Property → List Property → Bytes → PropertyConflict
conflict_at base ours theirs name = record {
  property = name;
  base = get base name;
  ours = get ours name;
  theirs = get theirs name;
}

-- `for name in names`
unfoldable pub merge_names :
    List Property → List Property → List Property → List Bytes → Fallible Merged
merge_names base ours theirs [] = ok (record { properties = []; conflicts = [] })
merge_names base ours theirs (name ∷ names) =
    resolved (get base name) (get ours name) (get theirs name) >>= λ value.
    merge_names base ours theirs names >>= λ later.
    ok (held (conflict_at base ours theirs name) value later)

unfoldable pub merge_properties : List Property → List Property → List Property → Fallible Merged
merge_properties base ours theirs = merge_names base ours theirs (property_names base ours theirs)

abbrev pub filter : (Bytes → Bool) → List Bytes → List Bytes
filter keep [] = []
filter keep (n ∷ ns) = if keep n then n ∷ filter keep ns else filter keep ns

-- The closure of the filter, of three sets.
unfoldable pub label_kept : List Bytes → List Bytes → List Bytes → Bytes → Bool
label_kept base ours theirs label =
    let in_base = contains base label in
    let removed =
      (in_base && not (contains ours label)) || (in_base && not (contains theirs label)) in
    let present = in_base || contains ours label || contains theirs label in present && not removed

unfoldable pub merge_labels : List Bytes → List Bytes → List Bytes → List Bytes
merge_labels base ours theirs =
    let base_set = extend base [] in
    let ours_set = extend ours [] in
    let theirs_set = extend theirs [] in
    let all = extend theirs_set (extend ours_set (extend base_set [])) in
    filter (label_kept base_set ours_set theirs_set) all

unfoldable pub merge_node_record :
    NodeRecord → NodeRecord → NodeRecord → Fallible (NodeRecord × List PropertyConflict)
merge_node_record base ours theirs =
    let labels = merge_labels base.secondary_labels ours.secondary_labels theirs.secondary_labels in
    merge_properties base.properties ours.properties theirs.properties >>= λ merged.
    ok (new_node_record labels merged.properties, merged.conflicts)

unfoldable pub merge_edge_record :
    EdgeRecord → EdgeRecord → EdgeRecord → Fallible (EdgeRecord × List PropertyConflict)
merge_edge_record base ours theirs =
    merge_properties base.properties ours.properties theirs.properties >>= λ merged.
    ok (new_edge_record merged.properties, merged.conflicts)
