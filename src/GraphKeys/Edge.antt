-- ===== src/GraphKeys/Edge.antt =====
-- `EdgeKey` of graph_keys.rs, and the prefixes of edge keys.
use acetone.Prelude.{ℕ, List}
use acetone.Prelude.Result.{ok, err, ◌>>=◌, ◌>>◌, refuse}
use acetone.Keys.Write.{encode_key}
use acetone.Keys.Read.{decode_key}
use acetone.GraphKeys.{
  Keyed, from_encode, from_decode, is_empty, as_string, check_scalar, empty_name, shape,
}
use acetone.GraphKeys.Node.{NodeKey, node_to_value, node_from_value, encode_node}
use acetone.Model.{Value, Values, string, nil, cons}

pub record EdgeKey : Type 0 where
  pub src : NodeKey
  pub rtype : List ℕ
  pub dst : NodeKey
  pub disc : Value

unfoldable pub new_edge_key : NodeKey → List ℕ → NodeKey → Value → Keyed EdgeKey
new_edge_key src rtype dst disc = do
  refuse (is_empty rtype) (empty_name "relationship type")
  check_scalar disc "discriminator"
  ok (record { src = src; rtype = rtype; dst = dst; disc = disc })

unfoldable pub encode_tuple : EdgeKey → NodeKey → NodeKey → Keyed (List ℕ)
encode_tuple e first second = from_encode (
    encode_key (
      cons (node_to_value first)
        (cons (string e.rtype) (cons (node_to_value second) (cons e.disc nil)))))

unfoldable pub encode_fwd : EdgeKey → Keyed (List ℕ)
unfolding encode_tuple
encode_fwd e = encode_tuple e e.src e.dst

unfoldable pub encode_rev : EdgeKey → Keyed (List ℕ)
unfolding encode_tuple
encode_rev e = encode_tuple e e.dst e.src

-- `let [first, rtype, second, disc] = tuple.as_slice()`
abbrev pub four_elements : Values → Keyed (Value × Value × Value × Value)
four_elements (cons first (cons rtype (cons second (cons disc nil)))) =
    ok (first, rtype, second, disc)
four_elements _ = err (shape "edge key must have exactly four elements")

unfoldable pub decode_tuple : List ℕ → Keyed (NodeKey × List ℕ × NodeKey × Value)
decode_tuple bytes = do
  tuple ← from_decode (decode_key bytes)
  (first, rtype, second, disc) ← four_elements tuple
  text ← as_string rtype "edge key second element must be a string type"
  node ← node_from_value first
  other ← node_from_value second
  ok (node, text, other, disc)

unfoldable pub decode_fwd : List ℕ → Keyed EdgeKey
decode_fwd bytes = do (src, rtype, dst, disc) ← decode_tuple bytes; new_edge_key src rtype dst disc

unfoldable pub decode_rev : List ℕ → Keyed EdgeKey
decode_rev bytes = do (dst, rtype, src, disc) ← decode_tuple bytes; new_edge_key src rtype dst disc

unfoldable pub edge_endpoint_prefix : NodeKey → Keyed (List ℕ)
unfolding encode_node
edge_endpoint_prefix node = encode_node node

unfoldable pub edge_endpoint_type_prefix : NodeKey → List ℕ → Keyed (List ℕ)
edge_endpoint_type_prefix node rtype =
    from_encode (encode_key (cons (node_to_value node) (cons (string rtype) nil)))
