-- ===== src/Records.antt =====
-- crates/acetone-model/src/records.rs: the records of nodes and edges, and the normal form of labels.
-- The stable sort of the standard library is written out by insertion.
use acetone.Prelude.{List, [], ◌∷◌, Ordering, if◌then◌else◌}
use acetone.Cbor.{canonical_str_cmp}
use acetone.Prolly.Types.{Bytes, bytes_eq}
use acetone.Model.{Value}

-- An entry of a `BTreeMap<String, Value>`, which is the list of its entries in ascending order.
pub record Property : Type 0 where
  pub name : Bytes
  pub value : Value

-- In front of the first element that is not below it.
unfoldable pub place : Bytes → List Bytes → List Bytes
place s [] = s ∷ []
place s (t ∷ ts) = elim (canonical_str_cmp s t) [ Ordering.gt ↦ t ∷ place s ts | _ ↦ s ∷ t ∷ ts ]

unfoldable pub sort : List Bytes → List Bytes
sort [] = []
sort (s ∷ ss) = place s (sort ss)

-- `Vec::dedup` behind an element that is kept.
unfoldable pub dedup_behind : Bytes → List Bytes → List Bytes
dedup_behind s [] = []
dedup_behind s (t ∷ ts) = if bytes_eq t s then dedup_behind s ts else t ∷ dedup_behind t ts

unfoldable pub dedup : List Bytes → List Bytes
dedup [] = []
dedup (s ∷ ss) = s ∷ dedup_behind s ss

unfoldable pub normalise_strings : List Bytes → List Bytes
normalise_strings items = dedup (sort items)

pub record NodeRecord : Type 0 where
  pub secondary_labels : List Bytes
  pub properties : List Property

unfoldable pub new_node_record : List Bytes → List Property → NodeRecord
new_node_record secondary_labels properties = record {
  secondary_labels = normalise_strings secondary_labels;
  properties = properties;
}

pub record EdgeRecord : Type 0 where
  pub properties : List Property

unfoldable pub new_edge_record : List Property → EdgeRecord
new_edge_record properties = record { properties = properties }
