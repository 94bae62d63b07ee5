-- ===== src/GraphKeys/Prefixes/Edges.antt =====
-- The keys that the edge prefixes of graph_keys.rs cover.
use acetone.Prelude.{ℕ, ◌≡◌, ◌↔◌, refl, ap, List, true}
use acetone.Prelude.Result.{ok}
use acetone.Keys.RoundTrip.{normal, normals}
use acetone.Keys.Contract.{append}
use acetone.Keys.Front.{IsAsLong}
use acetone.GraphKeys.Node.{NodeKey, node_to_value, encode_node}
use acetone.GraphKeys.Edge.{
  EdgeKey, encode_tuple, encode_fwd, encode_rev, edge_endpoint_prefix, edge_endpoint_type_prefix,
}
use acetone.GraphKeys.Range.{starts_with}
use acetone.GraphKeys.NodeCodec.{from_encode_ok, IsNodeValue, normal_node}
use acetone.GraphKeys.EdgeCodec.{IsEdgeValue}
use acetone.Model.{Value, string, nil, cons, IsValue}
use acetone.GraphKeys.Prefixes.{
  key_prefix_iff, one_same, two_same, string_same, node_same_iff, both_iff,
}

typed_same_iff :
    (k n : NodeKey) (s t : List ℕ)
    → (normals (cons (node_to_value k) (cons (string s) nil))
        ≡ normals (cons (node_to_value n) (cons (string t) nil)))
      ↔ ((normal_node k ≡ normal_node n) × (s ≡ t))
unfolding normals
typed_same_iff k n s t = (
  λ e. let (node, text) = two_same e in ((node_same_iff k n).0 node, string_same text),
  λ (node, text). rw ((node_same_iff k n).1 node, text) refl,
)

typed_front :
    (e : EdgeKey) (first second node : NodeKey) (rtype p x : List ℕ)
    → IsNodeValue first
    → IsNodeValue second
    → IsValue (string e.rtype)
    → IsValue e.disc
    → IsNodeValue node
    → IsValue (string rtype)
    → edge_endpoint_type_prefix node rtype ≡ ok p
    → encode_tuple e first second ≡ ok x
    → (starts_with p x ≡ true) ↔ ((normal_node first ≡ normal_node node) × (e.rtype ≡ rtype))
unfolding edge_endpoint_type_prefix encode_tuple append
typed_front e first second node rtype p x hf hs ht hd hn hr ep ex =
    both_iff
      (key_prefix_iff (cons (node_to_value first) (cons (string e.rtype) nil))
        (cons (node_to_value second) (cons e.disc nil))
        (cons (node_to_value node) (cons (string rtype) nil)) p x (unfold IsAsLong in tt)
        (unfold node_to_value in (hf, (ht, (hs, (hd, tt)))))
        (unfold node_to_value in (hn, (hr, tt))) (from_encode_ok _ p ep) (from_encode_ok _ x ex))
      (typed_same_iff first node e.rtype rtype)

-- The prefix of an endpoint and a type covers exactly the forward keys of edges of the type from that
-- node, and exactly the reverse keys of edges of the type to it, nodes being the same where they
-- differ in no more than the sign of a zero.
pub edge_endpoint_type_prefix_iff :
    (e : EdgeKey) (node : NodeKey) (rtype p x y : List ℕ)
    → IsEdgeValue e
    → IsNodeValue node
    → IsValue (string rtype)
    → edge_endpoint_type_prefix node rtype ≡ ok p
    → encode_fwd e ≡ ok x
    → encode_rev e ≡ ok y
    → ((starts_with p x ≡ true) ↔ ((normal_node e.src ≡ normal_node node) × (e.rtype ≡ rtype)))
      × ((starts_with p y ≡ true) ↔ ((normal_node e.dst ≡ normal_node node) × (e.rtype ≡ rtype)))
unfolding encode_fwd encode_rev
edge_endpoint_type_prefix_iff e node rtype p x y (hs, hd, ht, hv) hn hr ep ex ey = (
  typed_front e e.src e.dst node rtype p x hs hd ht hv hn hr ep ex,
  typed_front e e.dst e.src node rtype p y hd hs ht hv hn hr ep ey,
)

one_same_iff : (v w : Value) → (normals (cons v nil) ≡ normals (cons w nil)) ↔ (normal v ≡ normal w)
unfolding normals
one_same_iff v w = (λ e. one_same e, λ e. ap (λ u. cons u nil) e)

ended_front :
    (e : EdgeKey) (first second node : NodeKey) (p x : List ℕ)
    → IsNodeValue first
    → IsNodeValue second
    → IsValue (string e.rtype)
    → IsValue e.disc
    → IsNodeValue node
    → edge_endpoint_prefix node ≡ ok p
    → encode_tuple e first second ≡ ok x
    → (starts_with p x ≡ true) ↔ (normal_node first ≡ normal_node node)
unfolding edge_endpoint_prefix encode_node encode_tuple append
ended_front e first second node p x hf hs ht hd hn ep ex =
    both_iff
      (key_prefix_iff (cons (node_to_value first) nil)
        (cons (string e.rtype) (cons (node_to_value second) (cons e.disc nil)))
        (cons (node_to_value node) nil) p x (unfold IsAsLong in tt)
        (unfold node_to_value in (hf, (ht, (hs, (hd, tt))))) (unfold node_to_value in (hn, tt))
        (from_encode_ok _ p ep) (from_encode_ok _ x ex))
      (both_iff (one_same_iff (node_to_value first) (node_to_value node))
        (node_same_iff first node))

-- The prefix of an endpoint covers exactly the forward keys of edges from that node, and exactly the
-- reverse keys of edges to it.
pub edge_endpoint_prefix_iff :
    (e : EdgeKey) (node : NodeKey) (p x y : List ℕ)
    → IsEdgeValue e
    → IsNodeValue node
    → edge_endpoint_prefix node ≡ ok p
    → encode_fwd e ≡ ok x
    → encode_rev e ≡ ok y
    → ((starts_with p x ≡ true) ↔ (normal_node e.src ≡ normal_node node))
      × ((starts_with p y ≡ true) ↔ (normal_node e.dst ≡ normal_node node))
unfolding encode_fwd encode_rev
edge_endpoint_prefix_iff e node p x y (hs, hd, ht, hv) hn ep ex ey = (
  ended_front e e.src e.dst node p x hs hd ht hv hn ep ex,
  ended_front e e.dst e.src node p y hd hs ht hv hn ep ey,
)
