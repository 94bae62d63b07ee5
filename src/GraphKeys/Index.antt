-- ===== src/GraphKeys/Index.antt =====
-- `IndexEntry` of graph_keys.rs, and the prefixes of index keys.
use acetone.Prelude.{ℕ, suc, Bool, false, List, [], ◌∷◌, length, ◌==◌, ◌||◌}
use acetone.Prelude.Result.{Result, ok, err, ◌>>=◌, ◌>>◌, refuse, ensure}
use acetone.Keys.Write.{KeyEncodeError, encode_key}
use acetone.Keys.Read.{decode_key}
use acetone.GraphKeys.{
  Keyed, from_encode, from_decode, is_empty, as_list, as_string, empty_name, shape,
}
use acetone.GraphKeys.Node.{NodeKey, node_to_value, node_from_value}
use acetone.Model.{Value, Values, string, list, nil, cons}

pub record IndexEntry : Type 0 where
  pub label : List ℕ
  pub properties : List (List ℕ)
  pub values : Values
  pub node : NodeKey

-- `properties.iter().any(|p| p.is_empty())`
abbrev pub any_empty : List (List ℕ) → Bool
any_empty [] = false
any_empty (p ∷ ps) = is_empty p || any_empty ps

abbrev pub length_of : Values → ℕ
length_of nil = 0
length_of (cons v vs) = suc (length_of vs)

unfoldable pub new_index_entry : List ℕ → List (List ℕ) → Values → NodeKey → Keyed IndexEntry
new_index_entry label properties values node = do
  refuse (is_empty label) (empty_name "index label")
  refuse (is_empty properties) (empty_name "index property")
  refuse (any_empty properties) (empty_name "index property")
  ensure (length properties == length_of values)
      (shape "index entry property and value counts differ")
  ok (record { label = label; properties = properties; values = values; node = node })

-- `.cloned().map(Value::String).collect()`
abbrev pub strings : List (List ℕ) → Values
strings [] = nil
strings (p ∷ ps) = cons (string p) (strings ps)

unfoldable pub encode_index_entry : IndexEntry → Keyed (List ℕ)
encode_index_entry e = from_encode (
    encode_key (
      cons (string e.label) (
        cons (list (strings e.properties))
          (cons (list e.values) (cons (node_to_value e.node) nil)))))

abbrev pub four_parts : Values → Keyed (Value × Value × Value × Value)
four_parts (cons label (cons properties (cons values (cons node nil)))) =
    ok (label, properties, values, node)
four_parts _ = err (shape "index key must have exactly four elements")

-- `.map(…).collect::<Result<Vec<_>, _>>()`
abbrev pub property_names : Values → Keyed (List (List ℕ))
property_names nil = ok []
property_names (cons p ps) = do
  name ← as_string p "index property names must be strings"
  names ← property_names ps
  ok (name ∷ names)

unfoldable pub decode_index_entry : List ℕ → Keyed IndexEntry
decode_index_entry bytes = do
  tuple ← from_decode (decode_key bytes)
  (label, properties, values, node) ← four_parts tuple
  text ← as_string label "index key must be [label, [properties], [values], node]"
  items ← as_list properties "index key must be [label, [properties], [values], node]"
  indexed ← as_list values "index key must be [label, [properties], [values], node]"
  names ← property_names items
  owner ← node_from_value node
  new_index_entry text names indexed owner

-- An error is the panic of `expect`.
unfoldable pub index_prefix : List ℕ → List (List ℕ) → Result KeyEncodeError (List ℕ)
index_prefix label properties =
    encode_key (cons (string label) (cons (list (strings properties)) nil))

unfoldable pub index_value_prefix : List ℕ → List (List ℕ) → Values → Keyed (List ℕ)
index_value_prefix label properties values =
    from_encode
      (encode_key (cons (string label) (cons (list (strings properties)) (cons (list values) nil))))
