-- ===== src/GraphKeys/Node.antt =====
-- `NodeKey` of graph_keys.rs.
use acetone.Prelude.{ℕ, List}
use acetone.Prelude.Result.{Result, ok, err, ◌>>=◌, ◌>>◌, refuse}
use acetone.Keys.Write.{KeyEncodeError, encode_key, encode_list_prefix}
use acetone.Keys.Read.{decode_key}
use acetone.GraphKeys.{
  Keyed, from_encode, from_decode, is_empty, is_nil, is_null, as_list, check_scalar, empty_name,
  empty_key_tuple, null_key_value, shape,
}
use acetone.Model.{Value, Values, string, list, nil, cons}

pub record NodeKey : Type 0 where
  pub label : List ℕ
  pub key : Values

-- `for v in &key`
unfoldable pub check_key : Values → Keyed (Unit {0})
check_key nil = ok tt
check_key (cons v vs) = do
  refuse (is_null v) null_key_value
  check_scalar v "node key tuple"
  check_key vs

unfoldable pub new_node_key : List ℕ → Values → Keyed NodeKey
new_node_key label key = do
  refuse (is_empty label) (empty_name "primary label")
  refuse (is_nil key) empty_key_tuple
  check_key key
  ok (record { label = label; key = key })

unfoldable pub node_to_value : NodeKey → Value
node_to_value k = list (cons (string k.label) k.key)

-- `elems.split_first()` with a text in front.
abbrev pub split_label : Values → Keyed (List ℕ × Values)
split_label (cons (string label) key) = ok (label, key)
split_label _ = err (shape "node key list must start with a string label")

unfoldable pub node_from_value : Value → Keyed NodeKey
node_from_value value = do
  elems ← as_list value "node key must be a list element"
  (label, key) ← split_label elems
  new_node_key label key

unfoldable pub encode_node : NodeKey → Keyed (List ℕ)
encode_node k = from_encode (encode_key (cons (node_to_value k) nil))

-- `let [elem] = tuple.as_slice()`
abbrev pub one_element : Values → Keyed Value
one_element (cons elem nil) = ok elem
one_element _ = err (shape "nodes-map key must be a single list element")

unfoldable pub decode_node_key : List ℕ → Keyed NodeKey
decode_node_key bytes = do
  tuple ← from_decode (decode_key bytes)
  elem ← one_element tuple
  node_from_value elem

-- An error is the panic of `expect`.
unfoldable pub node_label_prefix : List ℕ → Result KeyEncodeError (List ℕ)
node_label_prefix label = encode_list_prefix (cons (string label) nil)
