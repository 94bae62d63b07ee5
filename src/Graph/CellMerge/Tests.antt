-- ===== src/Graph/CellMerge/Tests.antt =====
-- A record with properties changed on one side, on both sides and on neither, and its labels.
use acetone.Prelude.{
  ℕ, ◌≡◌, ◌↔◌, refl, Bool, true, List, [], ◌∷◌, Option, some, ◌&&◌, ◌||◌, if◌then◌else◌, arith,
}
use acetone.Prelude.Int.{pos}
use acetone.Prelude.Bytes.{bytes_cmp}
use acetone.Prelude.Result.{ok}
use acetone.Cbor.{write_head, write_int}
use acetone.ValueCodec.Write.{encode_value, write_value}
use acetone.ValueCodec.Canonical.{canonical}
use acetone.Records.{Property}
use acetone.Graph.CellMerge.{
  PropertyConflict, Merged, get, insert, extend, contains, conflict_at, merge_properties,
  merge_names, property_names, resolved, held, opt_eq, value_eq, merge_labels, label_kept,
}
use acetone.Graph.CellMerge.Rule.{Rule, Holds, value_of, conflict_of}
use acetone.Graph.CellMerge.Contract.{value_eq_iff, merge_properties-Rule}
use acetone.Graph.CellMerge.{merge_node_record}
use acetone.Graph.CellMerge.InOrder.{IsInOrder}
use acetone.Graph.CellMerge.Labels.{IsCanonical}
use acetone.Graph.CellMerge.Contract.{merge_node_record-Rule}
use acetone.Prolly.Ordered.{find}
use acetone.Graph.CellMerge.ValueEq.{Agree}
use acetone.Graph.CellMerge.Sides.{exchanged_in, merge_properties_comm}
use acetone.Records.{NodeRecord}
use acetone.Model.{Value, int, float}

abbrev number : ℕ → ℕ → Property
number name n = record { name = name ∷ []; value = int (pos n) }

-- `a` is changed by us, `b` by both sides, and `c` is added by them.
abbrev base_properties : List Property
base_properties = number 97 0 ∷ number 98 0 ∷ []

abbrev our_properties : List Property
our_properties = number 97 1 ∷ number 98 1 ∷ []

abbrev their_properties : List Property
their_properties = number 97 0 ∷ number 98 2 ∷ number 99 3 ∷ []

abbrev clash : PropertyConflict
clash = record {
  property = 98 ∷ [];
  base = some (int (pos 0));
  ours = some (int (pos 1));
  theirs = some (int (pos 2));
}

merged :
    merge_properties base_properties our_properties their_properties
    ≡ ok (record { properties = number 97 1 ∷ number 99 3 ∷ []; conflicts = clash ∷ [] })
unfolding merge_properties merge_names property_names extend insert get resolved opt_eq value_eq
    held encode_value write_value write_int write_head bytes_cmp
merged = refl

-- {A}, where we add B and they remove A.
labels : merge_labels ((65 ∷ []) ∷ []) ((65 ∷ []) ∷ (66 ∷ []) ∷ []) [] ≡ (66 ∷ []) ∷ []
unfolding merge_labels extend insert contains label_kept bytes_cmp
labels = refl

value_eq_iff_example :
    (b : Bool) × (value_eq (float 0x7ff8_0000_0000_0000) (float 0x7ff8_0000_0000_0001) ≡ ok b)
    × ((b ≡ true)
        ↔ (canonical (float 0x7ff8_0000_0000_0000) ≡ canonical (float 0x7ff8_0000_0000_0001)))
value_eq_iff_example =
    value_eq_iff (float 0x7ff8_0000_0000_0000) (float 0x7ff8_0000_0000_0001)
      (omega arith, tt, omega arith) (omega arith, tt, omega arith)

merge_properties-Rule_example :
    (m : Merged) × (merge_properties base_properties our_properties their_properties ≡ ok m)
    × (r : Option (Option Value)) × Rule
        (get base_properties (98 ∷ []))
        (get our_properties (98 ∷ []))
        (get their_properties (98 ∷ []))
        r
    × Holds
        (98 ∷ [])
        m
        (value_of r)
        (conflict_of (conflict_at base_properties our_properties their_properties (98 ∷ [])) r)
    × IsInOrder m
merge_properties-Rule_example =
    merge_properties-Rule base_properties our_properties their_properties (98 ∷ [])
      ((omega arith, tt, omega arith), ((omega arith, tt, omega arith), tt))
      ((omega arith, tt, omega arith), ((omega arith, tt, omega arith), tt))
      (
        (omega arith, tt, omega arith),
        ((omega arith, tt, omega arith), ((omega arith, tt, omega arith), tt)),
      )

abbrev base_node : NodeRecord
base_node = record { secondary_labels = (65 ∷ []) ∷ []; properties = base_properties }

abbrev our_node : NodeRecord
our_node = record {
  secondary_labels = (65 ∷ 66 ∷ []) ∷ (65 ∷ []) ∷ [];
  properties = our_properties;
}

abbrev their_node : NodeRecord
their_node = record { secondary_labels = (67 ∷ []) ∷ []; properties = their_properties }

merge_node_record-Rule_example :
    (node : NodeRecord) × (conflicts : List PropertyConflict) × (merge_node_record base_node
        our_node their_node
      ≡ ok (node, conflicts))
    × (r : Option (Option Value)) × Rule
        (get base_properties (97 ∷ []))
        (get our_properties (97 ∷ []))
        (get their_properties (97 ∷ []))
        r
    × Holds
        (97 ∷ [])
        (record { properties = node.properties; conflicts = conflicts })
        (value_of r)
        (conflict_of (conflict_at base_properties our_properties their_properties (97 ∷ [])) r)
    × (contains node.secondary_labels (67 ∷ []) ≡ (
        if contains base_node.secondary_labels (67 ∷ [])
        then contains our_node.secondary_labels (67 ∷ [])
          && contains their_node.secondary_labels (67 ∷ [])
        else contains our_node.secondary_labels (67 ∷ [])
          || contains their_node.secondary_labels (67 ∷ [])))
    × IsCanonical node.secondary_labels
    × IsInOrder (record { properties = node.properties; conflicts = conflicts })
merge_node_record-Rule_example =
    merge_node_record-Rule base_node our_node their_node (97 ∷ []) (67 ∷ [])
      ((omega arith, tt, omega arith), ((omega arith, tt, omega arith), tt))
      ((omega arith, tt, omega arith), ((omega arith, tt, omega arith), tt))
      (
        (omega arith, tt, omega arith),
        ((omega arith, tt, omega arith), ((omega arith, tt, omega arith), tt)),
      )

merge_properties_comm_example :
    (m n : Merged) × (merge_properties base_properties our_properties their_properties ≡ ok m)
    × (merge_properties base_properties their_properties our_properties ≡ ok n)
    × Agree (get m.properties (98 ∷ [])) (get n.properties (98 ∷ []))
    × (find PropertyConflict.property (98 ∷ []) n.conflicts
        ≡ exchanged_in (find PropertyConflict.property (98 ∷ []) m.conflicts))
merge_properties_comm_example =
    merge_properties_comm base_properties our_properties their_properties (98 ∷ [])
      ((omega arith, tt, omega arith), ((omega arith, tt, omega arith), tt))
      ((omega arith, tt, omega arith), ((omega arith, tt, omega arith), tt))
      (
        (omega arith, tt, omega arith),
        ((omega arith, tt, omega arith), ((omega arith, tt, omega arith), tt)),
      )
