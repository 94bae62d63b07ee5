-- ===== src/GraphKeys/NodeCodec.antt =====
-- Encoding and decoding of node keys in graph_keys.rs.
use acetone.Prelude.{ℕ, ◌≡◌, refl, ◌∙◌, ap, false, List, subst}
use acetone.Prelude.Bytes.{IsBytes}
use acetone.Prelude.Result.{Result, ok, err, out_of_fuel, bind_parts}
use acetone.Keys.Write.{KeyEncodeError, encode_key}
use acetone.Keys.Read.{KeyDecodeError, decode_key}
use acetone.Keys.RoundTrip.{normal, normals, is_nan-normalise_zero}
use acetone.Keys.Contract.{decode_key-encode_key, encode_key-decode_key}
use acetone.GraphKeys.{Keyed, from_encode, from_decode, as_list, as_string, is_nil, is_null}
use acetone.GraphKeys.Node.{
  NodeKey, node_to_value, node_from_value, split_label, encode_node, one_element, decode_node_key,
}
use acetone.GraphKeys.Identity.{IsNodeKey, AreParts, IsScalar, new_node_key-Takes, taken, takes}
use acetone.Model.{Value, Values, null, float, string, list, nil, cons, IsValue}
use Prim.Native.String.{String}

-- Where `?` converts the error, the value is the same.
pub from_encode_ok {ℓ} :
    {A : Type ℓ} (r : Result KeyEncodeError A) (a : A) → from_encode r ≡ ok a → r ≡ ok a
from_encode_ok (ok b) a e = cc
from_encode_ok (err error) a e = cc
from_encode_ok out_of_fuel a e = cc

pub from_decode_ok {ℓ} :
    {A : Type ℓ} (r : Result KeyDecodeError A) (a : A) → from_decode r ≡ ok a → r ≡ ok a
from_decode_ok (ok b) a e = cc
from_decode_ok (err error) a e = cc
from_decode_ok out_of_fuel a e = cc

pub as_list_ok : (v : Value) (m : String) (items : Values) → as_list v m ≡ ok items → v ≡ list items
as_list_ok (list vs) m items e = cc
as_list_ok _ m items e = cc

pub as_string_ok : (v : Value) (m : String) (s : List ℕ) → as_string v m ≡ ok s → v ≡ string s
as_string_ok (string t) m s e = cc
as_string_ok _ m s e = cc

-- A node key as it comes back: the sign of zero is lost.
abbrev pub normal_node : NodeKey → NodeKey
normal_node k = record { label = k.label; key = normals k.key }

-- What Rust's types guarantee of a node key.
abbrev pub IsNodeValue : NodeKey → Type 0
IsNodeValue k = IsValue (list (cons (string k.label) k.key))

pub IsScalar-normal : (v : Value) → IsScalar v → IsScalar (normal v)
unfolding normal
IsScalar-normal (float x) h = is_nan-normalise_zero x h
IsScalar-normal (list vs) h = absurd h
IsScalar-normal _ h = tt

null_same : (v : Value) → is_null v ≡ false → is_null (normal v) ≡ false
unfolding normal
null_same null h = h
null_same _ h = refl

AreParts-normals : (vs : Values) → AreParts vs → AreParts (normals vs)
unfolding normals
AreParts-normals nil h = tt
AreParts-normals (cons v vs) (here, others) =
    (null_same v here, (IsScalar-normal v others.0, AreParts-normals vs others.1))

nil_same : (vs : Values) → is_nil vs ≡ false → is_nil (normals vs) ≡ false
unfolding normals
nil_same nil h = h
nil_same (cons v vs) h = refl

pub IsNodeKey-normal_node : (k : NodeKey) → IsNodeKey k → IsNodeKey (normal_node k)
IsNodeKey-normal_node k (named, others) =
    (named, (nil_same k.key others.0, AreParts-normals k.key others.1))

pub node_from_value-normal :
    (k : NodeKey) → IsNodeKey k → node_from_value (normal (node_to_value k)) ≡ ok (normal_node k)
unfolding node_from_value node_to_value normal
node_from_value-normal k h =
    takes _ _ _ (new_node_key-Takes k.label (normals k.key)) (IsNodeKey-normal_node k h)

pub ok_same {ℓ} : {A : Type ℓ} {a b : A} → ◌≡◌ {A = Keyed A} (ok a) (ok b) → a ≡ b
ok_same e = cc

-- Tuples of four with the same elements.
pub four_same :
    {a a' b b' c c' d d' : Value}
    → a ≡ a'
    → b ≡ b'
    → c ≡ c'
    → d ≡ d'
    → cons a (cons b (cons c (cons d nil))) ≡ cons a' (cons b' (cons c' (cons d' nil)))
four_same p q r s = rw (p, q, r, s) refl

split_label_ok :
    (vs : Values) (p : List ℕ × Values) → split_label vs ≡ ok p → vs ≡ cons (string p.0) p.1
split_label_ok (cons (string s) vs) p e = ap (λ q. cons (string q.0) q.1) (ok_same e)
split_label_ok _ p e = cc

-- A value that a node key was read from is the value of that key.
pub node_from_value_ok :
    (v : Value) (k : NodeKey) → node_from_value v ≡ ok k → IsNodeKey k × (v ≡ node_to_value k)
unfolding node_from_value node_to_value
node_from_value_ok v k e =
    let (items, e1, e2) = bind_parts (as_list v "node key must be a list element") _ e in
    let (p, e3, e4) = bind_parts (split_label items) _ e2 in
    let (good, same) = taken _ _ _ _ (new_node_key-Takes p.0 p.1) e4 in
    (
      subst IsNodeKey same good,
      as_list_ok v _ items e1 ∙ ap list (split_label_ok items p e3) ∙ ap node_to_value same,
    )

one_element_ok : (vs : Values) (v : Value) → one_element vs ≡ ok v → vs ≡ cons v nil
one_element_ok nil v e = cc
one_element_ok (cons w nil) v e = cc
one_element_ok (cons w (cons u us)) v e = cc

-- `decode` of an encoded node key gives the key back, with -0.0 in the tuple turned into 0.0 and
-- nothing else changed.
pub decode_node_key-encode_node :
    (k : NodeKey) (x : List ℕ)
    → IsNodeValue k
    → IsNodeKey k
    → encode_node k ≡ ok x
    → decode_node_key x ≡ ok (normal_node k)
unfolding decode_node_key encode_node node_to_value normals
decode_node_key-encode_node k x h identity e =
    rw (decode_key-encode_key _ x (h, tt) (from_encode_ok _ x e))
      (node_from_value-normal k identity)

-- `decode` of a node key is strict: the bytes it accepts are exactly those that `encode` writes for
-- the key returned, which is one that `NodeKey::new` takes.
pub encode_node-decode_node_key :
    (x : List ℕ) (k : NodeKey)
    → IsBytes x
    → decode_node_key x ≡ ok k
    → IsNodeKey k × (encode_node k ≡ ok x)
unfolding decode_node_key encode_node
encode_node-decode_node_key x k h e =
    let (vs, e1, e2) = bind_parts (from_decode (decode_key x)) _ e in
    let (v, e3, e4) = bind_parts (one_element vs) _ e2 in
    let (identity, value) = node_from_value_ok v k e4 in
    let tuple : vs ≡ cons (node_to_value k) nil =
      one_element_ok vs v e3 ∙ ap (λ t. cons t nil) value in
    (
      identity,
      ap from_encode (
          subst (λ t. encode_key t ≡ ok x) tuple
            (encode_key-decode_key x vs h (from_decode_ok _ vs e1)).1),
    )
