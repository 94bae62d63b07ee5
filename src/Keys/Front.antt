-- ===== src/Keys/Front.antt =====
-- The fronts of encoded tuples in keys.rs: an encoding never runs into what follows it, so that the
-- first elements of a tuple are seen in the first bytes of its encoding.
use acetone.Prelude.{ℕ, ◌+◌, ◌≡◌, refl, sym, ◌∙◌, ap, List, ◌++◌, arith, length, append_assoc}
use acetone.Prelude.Result.{ok}
use acetone.Keys.Cmp.{normalise_zero}
use acetone.Keys.Read.{Read, read_element}
use acetone.Keys.RoundTrip.{normal, normals, read_element-encoding}
use acetone.Keys.Encoding.{encoding, encodings, IsKey, AreKeys}
use acetone.Model.{IsValue, AreValues, is_zero}
use acetone.Model.{Value, Values, float, list, nil, cons}

read_same : {p q : Value × List ℕ} → ◌≡◌ {A = Read (Value × List ℕ)} (ok p) (ok q) → p ≡ q
read_same e = cc

-- Where two encodings stand in front of the same bytes, they are of the same value, but for the sign
-- of zero, and the same bytes are left.
encoding_front :
    (v w : Value) (d : ℕ) (r s : List ℕ)
    → IsValue v
    → IsValue w
    → IsKey d v
    → IsKey d w
    → encoding v ++ r ≡ encoding w ++ s
    → (normal v ≡ normal w) × (r ≡ s)
encoding_front v w d r s hv hw kv kw e =
    let fuel : ℕ = length (encoding v) + length (encoding w) in
    let first = read_element-encoding v fuel d r hv kv (omega arith) in
    let second = read_element-encoding w fuel d s hw kw (omega arith) in
    let same : (normal v, r) ≡ (normal w, s) =
      read_same (sym first ∙ ap (read_element fuel d) e ∙ second) in
    (ap (λ p. p.0) same, ap (λ p. p.1) same)

normalise_twice : (x : ℕ) → normalise_zero (normalise_zero x) ≡ normalise_zero x
unfolding normalise_zero is_zero
normalise_twice x = ground arith

mutual
  unfolding encoding normal

  encoding-normal : (v : Value) → encoding (normal v) ≡ encoding v
  encoding-normal (float x) = rw (normalise_twice x) refl
  encoding-normal (list vs) = rw (encodings-normals vs) refl
  encoding-normal _ = refl

  encodings-normals : (vs : Values) → encodings (normals vs) ≡ encodings vs
  encodings-normals nil = refl
  encodings-normals (cons v vs) = rw (encoding-normal v, encodings-normals vs) refl

-- Tuples of one length.
unfoldable pub IsAsLong : Values → Values → Type 0
IsAsLong nil nil = Unit
IsAsLong nil (cons w ws) = ⊥
IsAsLong (cons v vs) nil = ⊥
IsAsLong (cons v vs) (cons w ws) = IsAsLong vs ws

pub encodings_front :
    (vs ws : Values) (d : ℕ) (r s : List ℕ)
    → IsAsLong vs ws
    → AreValues vs
    → AreValues ws
    → AreKeys d vs
    → AreKeys d ws
    → encodings vs ++ r ≡ encodings ws ++ s
    → normals vs ≡ normals ws
unfolding encodings normals IsAsLong
encodings_front nil nil d r s long hv hw kv kw e = refl
encodings_front nil (cons w ws) d r s long hv hw kv kw e = absurd long
encodings_front (cons v vs) nil d r s long hv hw kv kw e = absurd long
encodings_front (cons v vs) (cons w ws) d r s long (hv, hvs) (hw, hws) (kv, kvs) (kw, kws) e =
    let apart : encoding v ++ (encodings vs ++ r) ≡ encoding w ++ (encodings ws ++ s) =
      sym (append_assoc (encoding v) (encodings vs) r)
      ∙ e
      ∙ append_assoc (encoding w) (encodings ws) s in
    let (same, rest) = encoding_front v w d _ _ hv hw kv kw apart in
    rw (same, encodings_front vs ws d r s long hvs hws kvs kws rest) refl

-- Tuples that come back the same are encoded the same.
pub encodings_of_normals : (vs ws : Values) → normals vs ≡ normals ws → encodings vs ≡ encodings ws
encodings_of_normals vs ws e = sym (encodings-normals vs) ∙ ap encodings e ∙ encodings-normals ws
