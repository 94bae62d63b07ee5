-- ===== src/GraphKeys/Tests.antt =====
-- Concrete keys of nodes, edges and index entries, and the theorems at them.
use acetone.Prelude.{ℕ, ◌≡◌, ◌↔◌, refl, true, false, List, [], ◌∷◌, arith, none, some}
use acetone.Prelude.Result.{ok}
use acetone.Keys.Write.{encode_key, write_element, write_chunked_loop}
use acetone.Keys.RoundTrip.{normals}
use acetone.GraphKeys.Node.{
  NodeKey, encode_node, decode_node_key, node_to_value, node_label_prefix, new_node_key,
}
use acetone.GraphKeys.Edge.{
  EdgeKey, encode_fwd, encode_rev, decode_fwd, decode_rev, edge_endpoint_type_prefix,
}
use acetone.GraphKeys.Index.{
  IndexEntry, strings, encode_index_entry, decode_index_entry, index_value_prefix,
}
use acetone.GraphKeys.Successor.{prefix_successor}
use acetone.GraphKeys.Range.{starts_with, in_range, starts_with-prefix_successor}
use acetone.GraphKeys.Identity.{Takes, IsNodeKey, IsIndexEntry, new_node_key-Takes}
use acetone.GraphKeys.NodeCodec.{
  normal_node, IsNodeValue, decode_node_key-encode_node, encode_node-decode_node_key,
}
use acetone.GraphKeys.EdgeCodec.{
  normal_edge, IsEdgeValue, IsWholeEdge, decode-encode_edge, encode-decode_edge,
}
use acetone.GraphKeys.IndexCodec.{
  normal_entry, IsEntryValue, decode-encode_index_entry, encode-decode_index_entry,
}
use acetone.GraphKeys.Prefixes.{node_label_prefix_iff}
use acetone.GraphKeys.Prefixes.Edges.{edge_endpoint_type_prefix_iff}
use acetone.GraphKeys.Prefixes.Indexes.{index_value_prefix_iff}
use acetone.Model.{null, bool, string, nil, cons, is_utf8, IsValue, AreValues}

abbrev host : NodeKey
host = record { label = 72 ∷ []; key = cons (bool true) nil }

abbrev service : NodeKey
service = record { label = 83 ∷ []; key = cons (bool false) nil }

abbrev uses : EdgeKey
uses = record { src = host; rtype = 85 ∷ []; dst = service; disc = null }

abbrev entry : IndexEntry
entry = record { label = 72 ∷ []; properties = (80 ∷ []) ∷ []; values = cons null nil; node = host }

-- One letter, framed.
abbrev letter : ℕ → List ℕ → List ℕ
letter b rest = 6 ∷ b ∷ 0 ∷ 0 ∷ 0 ∷ 0 ∷ 0 ∷ 0 ∷ 0 ∷ 0xf8 ∷ rest

abbrev host_bytes : List ℕ → List ℕ
host_bytes rest = 12 ∷ letter 72 (3 ∷ 0 ∷ rest)

abbrev service_bytes : List ℕ → List ℕ
service_bytes rest = 12 ∷ letter 83 (2 ∷ 0 ∷ rest)

abbrev fwd_bytes : List ℕ
fwd_bytes = host_bytes (letter 85 (service_bytes (1 ∷ [])))

abbrev rev_bytes : List ℕ
rev_bytes = service_bytes (letter 85 (host_bytes (1 ∷ [])))

abbrev entry_bytes : List ℕ
entry_bytes = letter 72 (12 ∷ letter 80 (0 ∷ 12 ∷ 1 ∷ 0 ∷ host_bytes []))

host_encodes : encode_node host ≡ ok (host_bytes [])
unfolding encode_node encode_key write_element write_chunked_loop node_to_value
host_encodes = refl

fwd_encodes : encode_fwd uses ≡ ok fwd_bytes
unfolding encode_fwd encode_key write_element write_chunked_loop node_to_value
fwd_encodes = refl

rev_encodes : encode_rev uses ≡ ok rev_bytes
unfolding encode_rev encode_key write_element write_chunked_loop node_to_value
rev_encodes = refl

entry_encodes : encode_index_entry entry ≡ ok entry_bytes
unfolding encode_index_entry encode_key write_element write_chunked_loop node_to_value
entry_encodes = refl

a_letter : IsValue (string (72 ∷ []))
unfolding is_utf8
a_letter = ((omega arith, tt), refl)

host_values : IsNodeValue host
unfolding is_utf8
host_values = (((omega arith, tt), refl), (tt, tt))

uses_values : IsEdgeValue uses
unfolding is_utf8
uses_values = (
  (((omega arith, tt), refl), (tt, tt)),
  (((omega arith, tt), refl), (tt, tt)),
  ((omega arith, tt), refl),
  tt,
)

names_values : AreValues (strings entry.properties)
unfolding is_utf8
names_values = (((omega arith, tt), refl), tt)

entry_values : IsEntryValue entry
entry_values = (a_letter, names_values, (tt, tt), host_values)

new_node_key-Takes_example :
    Takes (IsNodeKey host) host (new_node_key (72 ∷ []) (cons (bool true) nil))
new_node_key-Takes_example = new_node_key-Takes (72 ∷ []) (cons (bool true) nil)

decode_node_key-encode_node_example : decode_node_key (host_bytes []) ≡ ok (normal_node host)
decode_node_key-encode_node_example =
    decode_node_key-encode_node host (host_bytes []) host_values (refl, (refl, (refl, (tt, tt))))
      host_encodes

host_decodes : decode_node_key (host_bytes []) ≡ ok host
unfolding normals
host_decodes = decode_node_key-encode_node_example

encode_node-decode_node_key_example : IsNodeKey host × (encode_node host ≡ ok (host_bytes []))
encode_node-decode_node_key_example =
    encode_node-decode_node_key (host_bytes []) host (omega arith) host_decodes

whole : IsWholeEdge uses
whole = ((refl, (refl, (refl, (tt, tt)))), (refl, (refl, (refl, (tt, tt)))), (refl, tt))

decode-encode_edge_example :
    (decode_fwd fwd_bytes ≡ ok (normal_edge uses)) × (decode_rev rev_bytes ≡ ok (normal_edge uses))
decode-encode_edge_example =
    decode-encode_edge uses fwd_bytes rev_bytes uses_values whole fwd_encodes rev_encodes

uses_decodes : (decode_fwd fwd_bytes ≡ ok uses) × (decode_rev rev_bytes ≡ ok uses)
unfolding normals
uses_decodes = decode-encode_edge_example

encode-decode_edge_example :
    IsWholeEdge uses
    × IsWholeEdge uses
    × (encode_fwd uses ≡ ok fwd_bytes)
    × (encode_rev uses ≡ ok rev_bytes)
encode-decode_edge_example =
    encode-decode_edge fwd_bytes rev_bytes uses uses (omega arith) (omega arith) uses_decodes.0
      uses_decodes.1

decode-encode_index_entry_example : decode_index_entry entry_bytes ≡ ok (normal_entry entry)
decode-encode_index_entry_example =
    decode-encode_index_entry entry entry_bytes entry_values (refl, (refl, (refl, refl)))
      (refl, (refl, (refl, (tt, tt)))) entry_encodes

entry_decodes : decode_index_entry entry_bytes ≡ ok entry
unfolding normals
entry_decodes = decode-encode_index_entry_example

encode-decode_index_entry_example :
    IsIndexEntry entry × IsNodeKey host × (encode_index_entry entry ≡ ok entry_bytes)
encode-decode_index_entry_example =
    encode-decode_index_entry entry_bytes entry (omega arith) entry_decodes

node_label_prefix_iff_example :
    (p : List ℕ) × (node_label_prefix (72 ∷ []) ≡ ok p)
    × ((starts_with p (host_bytes []) ≡ true) ↔ (host.label ≡ 72 ∷ []))
node_label_prefix_iff_example =
    node_label_prefix_iff host (72 ∷ []) (host_bytes []) host_values a_letter host_encodes

host_uses_prefix : edge_endpoint_type_prefix host (72 ∷ []) ≡ ok (host_bytes (letter 72 []))
unfolding edge_endpoint_type_prefix encode_key write_element write_chunked_loop node_to_value
host_uses_prefix = refl

edge_endpoint_type_prefix_iff_example :
    ((starts_with (host_bytes (letter 72 [])) fwd_bytes ≡ true)
      ↔ ((normal_node host ≡ normal_node host) × (uses.rtype ≡ 72 ∷ [])))
    × ((starts_with (host_bytes (letter 72 [])) rev_bytes ≡ true)
        ↔ ((normal_node service ≡ normal_node host) × (uses.rtype ≡ 72 ∷ [])))
edge_endpoint_type_prefix_iff_example =
    edge_endpoint_type_prefix_iff uses host (72 ∷ []) (host_bytes (letter 72 [])) fwd_bytes
      rev_bytes uses_values host_values a_letter host_uses_prefix fwd_encodes rev_encodes

seek_prefix :
    index_value_prefix (72 ∷ []) ((80 ∷ []) ∷ []) (cons null nil)
    ≡ ok (letter 72 (12 ∷ letter 80 (0 ∷ 12 ∷ 1 ∷ 0 ∷ [])))
unfolding index_value_prefix encode_key write_element write_chunked_loop
seek_prefix = refl

index_value_prefix_iff_example :
    (starts_with (letter 72 (12 ∷ letter 80 (0 ∷ 12 ∷ 1 ∷ 0 ∷ []))) entry_bytes ≡ true) ↔ (
      (entry.label ≡ 72 ∷ [])
      × (entry.properties ≡ (80 ∷ []) ∷ [])
      × (normals entry.values ≡ normals (cons null nil)))
index_value_prefix_iff_example =
    index_value_prefix_iff entry (72 ∷ []) ((80 ∷ []) ∷ []) (cons null nil) _ entry_bytes
      entry_values a_letter names_values (tt, tt) seek_prefix entry_encodes

-- As in the test `prefix_successor_bounds`.
successors :
    (prefix_successor (1 ∷ 2 ∷ []) ≡ some (1 ∷ 3 ∷ []))
    × (prefix_successor (1 ∷ 0xff ∷ []) ≡ some (2 ∷ []))
    × (prefix_successor (0xff ∷ 0xff ∷ []) ≡ none)
    × (prefix_successor [] ≡ none)
unfolding prefix_successor
successors = (refl, refl, refl, refl)

starts_with-prefix_successor_example :
    starts_with (1 ∷ 0xff ∷ []) (1 ∷ 0xff ∷ 7 ∷ [])
    ≡ in_range (1 ∷ 0xff ∷ []) (prefix_successor (1 ∷ 0xff ∷ [])) (1 ∷ 0xff ∷ 7 ∷ [])
starts_with-prefix_successor_example =
    starts_with-prefix_successor (1 ∷ 0xff ∷ []) (1 ∷ 0xff ∷ 7 ∷ []) (omega arith) (omega arith)
