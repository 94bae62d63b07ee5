-- ===== src/GraphKeys/EdgeCodec.antt =====
-- Encoding and decoding of edge keys in graph_keys.rs, forward and reverse.
use acetone.Prelude.{ℕ, ◌≡◌, refl, sym, ◌∙◌, ap, List, subst}
use acetone.Prelude.Bytes.{IsBytes}
use acetone.Prelude.Result.{ok, bind_parts}
use acetone.Keys.Write.{encode_key}
use acetone.Keys.Read.{decode_key}
use acetone.Keys.RoundTrip.{normal, normals}
use acetone.Keys.Contract.{decode_key-encode_key, encode_key-decode_key}
use acetone.GraphKeys.{from_encode, from_decode, as_string}
use acetone.GraphKeys.Node.{NodeKey, node_to_value, node_from_value}
use acetone.GraphKeys.Edge.{
  EdgeKey, new_edge_key, encode_tuple, encode_fwd, encode_rev, four_elements, decode_tuple,
  decode_fwd, decode_rev,
}
use acetone.GraphKeys.Identity.{IsNodeKey, IsEdgeKey, new_edge_key-Takes, taken, takes}
use acetone.GraphKeys.NodeCodec.{
  from_encode_ok, from_decode_ok, as_string_ok, normal_node, IsNodeValue, IsScalar-normal,
  node_from_value-normal, node_from_value_ok, ok_same, four_same,
}
use acetone.Model.{Value, Values, string, nil, cons, IsValue}

-- An edge key as it comes back: the sign of zero is lost.
abbrev pub normal_edge : EdgeKey → EdgeKey
normal_edge e = record {
  src = normal_node e.src;
  rtype = e.rtype;
  dst = normal_node e.dst;
  disc = normal e.disc;
}

-- What Rust's types guarantee of an edge key.
abbrev pub IsEdgeValue : EdgeKey → Type 0
IsEdgeValue e = IsNodeValue e.src × IsNodeValue e.dst × IsValue (string e.rtype) × IsValue e.disc

-- Both ends are node keys that `NodeKey::new` takes, and the rest one that `EdgeKey::new` takes.
abbrev pub IsWholeEdge : EdgeKey → Type 0
IsWholeEdge e = IsNodeKey e.src × IsNodeKey e.dst × IsEdgeKey e

decode_tuple-encode_tuple :
    (e : EdgeKey) (first second : NodeKey) (x : List ℕ)
    → IsNodeValue first
    → IsNodeValue second
    → IsValue (string e.rtype)
    → IsValue e.disc
    → IsNodeKey first
    → IsNodeKey second
    → encode_tuple e first second ≡ ok x
    → decode_tuple x ≡ ok (normal_node first, e.rtype, normal_node second, normal e.disc)
unfolding decode_tuple encode_tuple node_to_value normals
decode_tuple-encode_tuple e first second x hf hs ht hd kf ks enc =
    rw (decode_key-encode_key _ x (hf, (ht, (hs, (hd, tt)))) (from_encode_ok _ x enc))
      (rw (node_from_value-normal first kf) (rw (node_from_value-normal second ks) refl))

normal_edge-IsEdgeKey : (e : EdgeKey) → IsEdgeKey e → IsEdgeKey (normal_edge e)
normal_edge-IsEdgeKey e (named, scalar) = (named, IsScalar-normal e.disc scalar)

-- `decode_fwd` and `decode_rev` give back the edge that `encode_fwd` and `encode_rev` wrote, each its
-- own, with -0.0 turned into 0.0 and nothing else changed.
pub decode-encode_edge :
    (e : EdgeKey) (x y : List ℕ)
    → IsEdgeValue e
    → IsWholeEdge e
    → encode_fwd e ≡ ok x
    → encode_rev e ≡ ok y
    → (decode_fwd x ≡ ok (normal_edge e)) × (decode_rev y ≡ ok (normal_edge e))
unfolding decode_fwd decode_rev encode_fwd encode_rev
decode-encode_edge e x y (hs, hd, ht, hv) (ks, kd, ke) ex ey = (
  rw (decode_tuple-encode_tuple e e.src e.dst x hs hd ht hv ks kd ex)
      (takes _ _ _ (new_edge_key-Takes _ _ _ _) (normal_edge-IsEdgeKey e ke)),
  rw (decode_tuple-encode_tuple e e.dst e.src y hd hs ht hv kd ks ey)
      (takes _ _ _ (new_edge_key-Takes _ _ _ _) (normal_edge-IsEdgeKey e ke)),
)

four_elements_ok :
    (vs : Values) (q : Value × Value × Value × Value)
    → four_elements vs ≡ ok q
    → vs ≡ cons q.0 (cons q.1 (cons q.2 (cons q.3 nil)))
four_elements_ok (cons a (cons b (cons c (cons d nil)))) q e =
    ap (λ r. cons r.0 (cons r.1 (cons r.2 (cons r.3 nil)))) (ok_same e)
four_elements_ok _ q e = cc

-- A tuple of four and the bytes that it was read from.
abbrev TupleRead : List ℕ → NodeKey × List ℕ × NodeKey × Value → Type 0
TupleRead x q =
    IsNodeKey q.0
    × IsNodeKey q.2
    × (encode_key
          (cons (node_to_value q.0) (cons (string q.1) (cons (node_to_value q.2) (cons q.3 nil))))
        ≡ ok x)

tuple_read :
    (x : List ℕ) (q : NodeKey × List ℕ × NodeKey × Value)
    → IsBytes x
    → decode_tuple x ≡ ok q
    → TupleRead x q
unfolding decode_tuple
tuple_read x q h e =
    let (vs, e1, e2) = bind_parts (from_decode (decode_key x)) _ e in
    let (p, e3, e4) = bind_parts (four_elements vs) _ e2 in
    let (text, e5, e6) =
      bind_parts (as_string p.1 "edge key second element must be a string type") _ e4 in
    let (first, e7, e8) = bind_parts (node_from_value p.0) _ e6 in
    let (second, e9, e10) = bind_parts (node_from_value p.2) _ e8 in
    let (kf, front) = node_from_value_ok p.0 first e7 in
    let (ks, back) = node_from_value_ok p.2 second e9 in
    let tuple : vs
        ≡ cons (node_to_value first)
            (cons (string text) (cons (node_to_value second) (cons p.3 nil))) =
      four_elements_ok vs p e3 ∙ four_same front (as_string_ok p.1 _ text e5) back refl in
    let written = (encode_key-decode_key x vs h (from_decode_ok _ vs e1)).1 in
    subst (TupleRead x) (ok_same e10) (kf, ks, subst (λ t. encode_key t ≡ ok x) tuple written)

-- The tuple behind an edge, whose constructor took it.
edge_of_tuple :
    (e : EdgeKey) (src : NodeKey) (rtype : List ℕ) (dst : NodeKey) (disc : Value)
    → new_edge_key src rtype dst disc ≡ ok e
    → IsEdgeKey e × (record { src = src; rtype = rtype; dst = dst; disc = disc } ≡ e)
edge_of_tuple e src rtype dst disc made =
    let (good, same) = taken _ _ _ _ (new_edge_key-Takes src rtype dst disc) made in
    (subst IsEdgeKey same good, same)

encode_fwd-decode_fwd :
    (x : List ℕ) (e : EdgeKey)
    → IsBytes x
    → decode_fwd x ≡ ok e
    → IsWholeEdge e × (encode_fwd e ≡ ok x)
unfolding decode_fwd encode_fwd encode_tuple
encode_fwd-decode_fwd x e h done =
    let (q, e1, e2) = bind_parts (decode_tuple x) _ done in
    let (kf, ks, written) = tuple_read x q h e1 in
    let (good, same) = edge_of_tuple e q.0 q.1 q.2 q.3 e2 in
    subst (λ t. IsWholeEdge t × (encode_fwd t ≡ ok x)) same
      ((kf, ks, subst IsEdgeKey (sym same) good), ap from_encode written)

encode_rev-decode_rev :
    (x : List ℕ) (e : EdgeKey)
    → IsBytes x
    → decode_rev x ≡ ok e
    → IsWholeEdge e × (encode_rev e ≡ ok x)
unfolding decode_rev encode_rev encode_tuple
encode_rev-decode_rev x e h done =
    let (q, e1, e2) = bind_parts (decode_tuple x) _ done in
    let (kf, ks, written) = tuple_read x q h e1 in
    let (good, same) = edge_of_tuple e q.2 q.1 q.0 q.3 e2 in
    subst (λ t. IsWholeEdge t × (encode_rev t ≡ ok x)) same
      ((ks, kf, subst IsEdgeKey (sym same) good), ap from_encode written)

-- `decode_fwd` and `decode_rev` are strict: the bytes that each accepts are exactly those that
-- `encode_fwd` and `encode_rev` write for the edge returned, whose parts the constructors take.
pub encode-decode_edge :
    (x y : List ℕ) (e f : EdgeKey)
    → IsBytes x
    → IsBytes y
    → decode_fwd x ≡ ok e
    → decode_rev y ≡ ok f
    → IsWholeEdge e × IsWholeEdge f × (encode_fwd e ≡ ok x) × (encode_rev f ≡ ok y)
encode-decode_edge x y e f hx hy ex ey =
    let (we, written) = encode_fwd-decode_fwd x e hx ex in
    let (wf, written') = encode_rev-decode_rev y f hy ey in (we, wf, written, written')
