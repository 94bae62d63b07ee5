-- ===== src/GraphKeys/Prefixes.antt =====
-- The scan prefixes of graph_keys.rs: which keys each of them covers.
pub mod Edges
pub mod Indexes
use acetone.Prelude.{
  ℕ, ◌≡◌, ◌↔◌, refl, sym, ◌∙◌, ap, subst, List, [], ◌∷◌, ◌++◌, true, append_assoc, append-nil,
  arith, ◌≤◌, inl, inr,
}
use acetone.Prelude.Result.{Result, ok, err, out_of_fuel}
use acetone.Keys.Tag
use acetone.Keys.Write.{encode_key, encode_list_prefix, finish}
use acetone.Keys.RoundTrip.{normal, normals}
use acetone.Keys.Encoding.{encoding, encodings, AreKeys}
use acetone.Keys.Accepts.{write_elements-Outcome, encode_key_outcome}
use acetone.Keys.Contract.{accepted, append, encodings-append, prefix_code}
use acetone.Keys.Front.{IsAsLong, encodings_front, encodings_of_normals}
use acetone.GraphKeys.{from_encode}
use acetone.GraphKeys.Node.{NodeKey, node_to_value, encode_node, node_label_prefix}
use acetone.GraphKeys.Edge.{
  EdgeKey, encode_tuple, encode_fwd, encode_rev, edge_endpoint_prefix, edge_endpoint_type_prefix,
}
use acetone.GraphKeys.Index.{
  IndexEntry, strings, encode_index_entry, index_prefix, index_value_prefix,
}
use acetone.GraphKeys.Range.{starts_with, starts_with-append, starts_with_split}
use acetone.GraphKeys.NodeCodec.{from_encode_ok, IsNodeValue, normal_node}
use acetone.GraphKeys.EdgeCodec.{IsEdgeValue}
use acetone.GraphKeys.IndexCodec.{IsEntryValue, normals-strings}
use acetone.Model.{Value, Values, string, list, nil, cons, IsValue, AreValues}

-- A prefix of elements covers exactly the tuples that begin with these elements.
front_iff :
    (vs ws : Values) (d : ℕ) (r : List ℕ)
    → IsAsLong vs ws
    → AreValues vs
    → AreValues ws
    → AreKeys d vs
    → AreKeys d ws
    → (starts_with (encodings ws) (encodings vs ++ r) ≡ true) ↔ (normals vs ≡ normals ws)
front_iff vs ws d r long hv hw kv kw = (
  λ e.
      let (rest, split) = starts_with_split (encodings ws) (encodings vs ++ r) e in
      encodings_front vs ws d r rest long hv hw kv kw split,
  λ same.
      subst (λ t. starts_with (encodings ws) (t ++ r) ≡ true)
        (sym (encodings_of_normals vs ws same)) (starts_with-append (encodings ws) r),
)

AreKeys-append : (vs more : Values) (d : ℕ) → AreKeys d (append vs more) → AreKeys d vs
unfolding append
AreKeys-append nil more d k = tt
AreKeys-append (cons v vs) more d (k, ks) = (k, AreKeys-append vs more d ks)

AreValues-append : (vs more : Values) → AreValues (append vs more) → AreValues vs
unfolding append
AreValues-append nil more h = tt
AreValues-append (cons v vs) more (h, hs) = (h, AreValues-append vs more hs)

-- The same for whole encoded tuples, the prefix being one too.
pub key_prefix_iff :
    (vs more ws : Values) (p x : List ℕ)
    → IsAsLong vs ws
    → AreValues (append vs more)
    → AreValues ws
    → encode_key ws ≡ ok p
    → encode_key (append vs more) ≡ ok x
    → (starts_with p x ≡ true) ↔ (normals vs ≡ normals ws)
key_prefix_iff vs more ws p x long hv hw ep ex =
    let (kw, prefix) = accepted ws p hw ep in
    let (kv, whole) = accepted (append vs more) x hv ex in
    rw (prefix, whole, encodings-append vs more)
      (front_iff vs ws 0 (encodings more) long (AreValues-append vs more hv) hw
        (AreKeys-append vs more 0 kv) kw)

-- The parts of tuples that come back the same.
pub one_same : {v w : Value} → cons v nil ≡ cons w nil → v ≡ w
one_same e = cc

pub two_same :
    {v w v' w' : Value} → cons v (cons w nil) ≡ cons v' (cons w' nil) → (v ≡ v') × (w ≡ w')
two_same e = (cc, cc)

pub string_same : {s t : List ℕ} → string s ≡ string t → s ≡ t
string_same e = cc

pub list_same : {vs ws : Values} → list vs ≡ list ws → vs ≡ ws
list_same e = cc

labelled_same :
    {a b : List ℕ} {vs ws : Values}
    → list (cons (string a) vs) ≡ list (cons (string b) ws)
    → (a ≡ b) × (vs ≡ ws)
labelled_same e = (cc, cc)

node_made :
    {a b : List ℕ} {vs ws : Values}
    → a ≡ b
    → vs ≡ ws
    → ◌≡◌ {A = NodeKey} (record { label = a; key = vs }) (record { label = b; key = ws })
node_made p q = rw (p, q) refl

pub node_same_iff :
    (k n : NodeKey)
    → (normal (node_to_value k) ≡ normal (node_to_value n)) ↔ (normal_node k ≡ normal_node n)
unfolding node_to_value normal
node_same_iff k n = (
  λ e. let (label, key) = labelled_same e in node_made label key,
  λ e. ap (λ (m : NodeKey). list (cons (string m.label) m.key)) e,
)

label_same_iff :
    (s t : List ℕ) → (normals (cons (string s) nil) ≡ normals (cons (string t) nil)) ↔ (s ≡ t)
unfolding normals
label_same_iff s t = (λ e. string_same (one_same e), λ e. rw e refl)

pub both_iff : {A B C : Type 0} → A ↔ B → B ↔ C → A ↔ C
both_iff f g = (λ a. g.0 (f.0 a), λ c. f.1 (g.1 c))

regroup : (a b c : List ℕ) → ((a ++ b) ++ c) ++ [] ≡ (a ++ []) ++ (b ++ c)
regroup a b c = rw (append-nil, append-nil, append_assoc a b c) refl

-- The one-element tuple of a label is a key at every depth that a list may have.
label_prefix_ok :
    (label : List ℕ)
    → IsValue (string label)
    → node_label_prefix label ≡ ok (Tag.list ∷ encodings (cons (string label) nil))
unfolding node_label_prefix encode_list_prefix
label_prefix_ok label h =
    elim (write_elements-Outcome (cons (string label) nil) (Tag.list ∷ []) 1 (h, tt)) [
      | inl (keys, code) ↦ ap finish code
      | inr (refused, error, part, code) ↦ absurd (refused (omega arith, tt))
    ]

-- `node_label_prefix` never panics, and the prefix covers exactly the keys of nodes with the label.
pub node_label_prefix_iff :
    (k : NodeKey) (label x : List ℕ)
    → IsNodeValue k
    → IsValue (string label)
    → encode_node k ≡ ok x
    → (p : List ℕ) × (node_label_prefix label ≡ ok p)
      × ((starts_with p x ≡ true) ↔ (k.label ≡ label))
unfolding encode_node node_to_value encodings starts_with
node_label_prefix_iff k label x hk hl e =
    let (keys, whole) = accepted _ x (hk, tt) (from_encode_ok _ x e) in
    let covered =
      front_iff (cons (string k.label) nil) (cons (string label) nil) 1
        (encodings k.key ++ Tag.list_end ∷ []) (unfold IsAsLong in tt) (hk.0, tt) (hl, tt)
        (omega arith, tt) (omega arith, tt) in
    let whole' : x
        ≡ Tag.list
          ∷ (encodings (cons (string k.label) nil) ++ (encodings k.key ++ Tag.list_end ∷ [])) =
      whole
      ∙ ap (λ t. Tag.list ∷ t)
          (regroup (encoding (string k.label)) (encodings k.key) (Tag.list_end ∷ [])) in
    (
      Tag.list ∷ encodings (cons (string label) nil),
      label_prefix_ok label hl,
      rw whole' (both_iff covered (label_same_iff k.label label)),
    )
