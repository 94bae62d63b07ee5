-- ===== src/GraphKeys/IndexCodec.antt =====
-- Encoding and decoding of index entries in graph_keys.rs.
use acetone.Prelude.{ℕ, ◌≡◌, refl, ◌∙◌, ap, List, [], ◌∷◌, subst, suc}
use acetone.Prelude.Bytes.{IsBytes}
use acetone.Prelude.Result.{ok, bind_parts}
use acetone.Keys.Write.{encode_key}
use acetone.Keys.Read.{decode_key}
use acetone.Keys.RoundTrip.{normals}
use acetone.Keys.Contract.{decode_key-encode_key, encode_key-decode_key}
use acetone.GraphKeys.{from_encode, from_decode, as_string, as_list}
use acetone.GraphKeys.Node.{node_to_value, node_from_value}
use acetone.GraphKeys.Index.{
  IndexEntry, length_of, strings, encode_index_entry, four_parts, property_names,
  decode_index_entry,
}
use acetone.GraphKeys.Identity.{IsNodeKey, IsIndexEntry, new_index_entry-Takes, taken, takes}
use acetone.GraphKeys.NodeCodec.{
  from_encode_ok, from_decode_ok, as_string_ok, as_list_ok, normal_node, IsNodeValue,
  node_from_value-normal, node_from_value_ok, ok_same, four_same,
}
use Prim.Native.String.{String}
use acetone.Model.{Value, Values, string, list, nil, cons, IsValue, AreValues}

-- An index entry as it comes back: the sign of zero is lost.
abbrev pub normal_entry : IndexEntry → IndexEntry
normal_entry e = record {
  label = e.label;
  properties = e.properties;
  values = normals e.values;
  node = normal_node e.node;
}

-- What Rust's types guarantee of an index entry.
abbrev pub IsEntryValue : IndexEntry → Type 0
IsEntryValue e =
    IsValue (string e.label)
    × AreValues (strings e.properties)
    × AreValues e.values
    × IsNodeValue e.node

pub normals-strings : (ps : List (List ℕ)) → normals (strings ps) ≡ strings ps
unfolding normals
normals-strings [] = refl
normals-strings (p ∷ ps) = ap (cons (string p)) (normals-strings ps)

property_names-strings : (ps : List (List ℕ)) → property_names (strings ps) ≡ ok ps
property_names-strings [] = refl
property_names-strings (p ∷ ps) = rw (property_names-strings ps) refl

length_of-normals : (vs : Values) → length_of (normals vs) ≡ length_of vs
unfolding normals
length_of-normals nil = refl
length_of-normals (cons v vs) = ap suc (length_of-normals vs)

normal_entry-IsIndexEntry : (e : IndexEntry) → IsIndexEntry e → IsIndexEntry (normal_entry e)
normal_entry-IsIndexEntry e h = rw (length_of-normals e.values) h

-- `decode` of an encoded index entry gives the entry back, with -0.0 in its values and in the key of
-- its node turned into 0.0 and nothing else changed.
pub decode-encode_index_entry :
    (e : IndexEntry) (x : List ℕ)
    → IsEntryValue e
    → IsIndexEntry e
    → IsNodeKey e.node
    → encode_index_entry e ≡ ok x
    → decode_index_entry x ≡ ok (normal_entry e)
unfolding decode_index_entry encode_index_entry node_to_value normals
decode-encode_index_entry e x (hl, hp, hv, hn) good identity enc =
    rw (decode_key-encode_key _ x (hl, (hp, (hv, (hn, tt)))) (from_encode_ok _ x enc)) (
      rw (normals-strings e.properties, property_names-strings e.properties)
        (rw (node_from_value-normal e.node identity)
          (takes _ _ _ (new_index_entry-Takes _ _ _ _) (normal_entry-IsIndexEntry e good))))

four_parts_ok :
    (vs : Values) (q : Value × Value × Value × Value)
    → four_parts vs ≡ ok q
    → vs ≡ cons q.0 (cons q.1 (cons q.2 (cons q.3 nil)))
four_parts_ok (cons a (cons b (cons c (cons d nil)))) q e =
    ap (λ r. cons r.0 (cons r.1 (cons r.2 (cons r.3 nil)))) (ok_same e)
four_parts_ok _ q e = cc

property_names_ok : (vs : Values) (ps : List (List ℕ)) → property_names vs ≡ ok ps → vs ≡ strings ps
property_names_ok nil ps e = ap strings (ok_same e)
property_names_ok (cons v vs) ps e =
    let (name, e1, e2) = bind_parts (as_string v "index property names must be strings") _ e in
    let (names, e3, e4) = bind_parts (property_names vs) _ e2 in
    rw (as_string_ok v _ name e1, property_names_ok vs names e3) (ap strings (ok_same e4))

-- `decode` of an index entry is strict: the bytes it accepts are exactly those that `encode` writes
-- for the entry returned, which is one that `IndexEntry::new` takes, on a key that `NodeKey::new`
-- takes.
pub encode-decode_index_entry :
    (x : List ℕ) (e : IndexEntry)
    → IsBytes x
    → decode_index_entry x ≡ ok e
    → IsIndexEntry e × IsNodeKey e.node × (encode_index_entry e ≡ ok x)
unfolding decode_index_entry encode_index_entry
encode-decode_index_entry x e h done =
    let message : String = "index key must be [label, [properties], [values], node]" in
    let (vs, e1, e2) = bind_parts (from_decode (decode_key x)) _ done in
    let (p, e3, e4) = bind_parts (four_parts vs) _ e2 in
    let (text, e5, e6) = bind_parts (as_string p.0 message) _ e4 in
    let (items, e7, e8) = bind_parts (as_list p.1 message) _ e6 in
    let (indexed, e9, e10) = bind_parts (as_list p.2 message) _ e8 in
    let (names, e11, e12) = bind_parts (property_names items) _ e10 in
    let (owner, e13, e14) = bind_parts (node_from_value p.3) _ e12 in
    let (key, value) = node_from_value_ok p.3 owner e13 in
    let (good, same) = taken _ _ _ _ (new_index_entry-Takes text names indexed owner) e14 in
    let tuple : vs
        ≡ cons (string text)
            (cons (list (strings names)) (cons (list indexed) (cons (node_to_value owner) nil))) =
      four_parts_ok vs p e3
      ∙ four_same (as_string_ok p.0 message text e5)
          (as_list_ok p.1 message items e7 ∙ ap list (property_names_ok items names e11))
          (as_list_ok p.2 message indexed e9) value in
    let written = (encode_key-decode_key x vs h (from_decode_ok _ vs e1)).1 in
    subst (λ t. IsIndexEntry t × IsNodeKey t.node × (encode_index_entry t ≡ ok x)) same
      (good, key, ap from_encode (subst (λ t. encode_key t ≡ ok x) tuple written))
