-- ===== src/Keys/RoundTrip.antt =====
-- The decoder reads back what the encoder promises, but that -0.0 comes back as 0.0.
mod Bodies
mod Framing
mod Scalars
unfoldable pub use Scalars.{normal, normals}
pub use Bodies.{is_nan-normalise_zero}
use acetone.Prelude.{
  ℕ, zero, suc, ◌+◌, ◌*◌, ◌≤◌, ◌<◌, ◌≡◌, refl, sym, ◌∙◌, List, [], ◌∷◌, ◌++◌, arith, true, false,
}
use acetone.Prelude.{
  append_assoc, append-nil, length, length-append, ltb, ge→ltb, ◌==◌, if◌then◌else◌,
}
use acetone.Prelude.Result.{ok, err, out_of_fuel, ◌>>=◌, ◌>>◌, refuse}
use acetone.Keys.Tag
use acetone.Keys.Cmp.{rank}
use acetone.Keys.Order.{encoding_tag}
use acetone.Keys.Read.{
  read_u8, peek_u8, read_scalar, read_element, read_elements, decode_key_loop, decode_key,
}
use acetone.Keys.Encoding.{encoding, encodings, IsKey, AreKeys}
use acetone.Model.{IsValue, AreValues}
use acetone.Model.{
  Value, Values, null, bool, int, float, string, bytes, date, time, date_time, duration, list, nil,
  cons,
}
use Scalars.{ReadsBack, IsScalar, scalar-ReadsBack}

pub length-encoding_pos : (v : Value) → 0 < length (encoding v)
length-encoding_pos v = let (body, e, positive) = encoding_tag v in rw e (omega arith)

element_step :
    (f d tag : ℕ) (rest : List ℕ)
    → d ≤ Tag.max_depth
    → (tag == Tag.list) ≡ false
    → read_element (suc f) d (tag ∷ rest) ≡ read_scalar tag rest
unfolding read_element read_u8
element_step f d tag rest h e = rw (ge→ltb Tag.max_depth d h, e)

list_step :
    (f d : ℕ) (rest : List ℕ)
    → d ≤ Tag.max_depth
    → read_element (suc f) d (Tag.list ∷ rest)
      ≡ (read_elements f (d + 1) rest >>= λ (vs, after). ok (list vs, after))
unfolding read_element read_u8
list_step f d rest h = rw (ge→ltb Tag.max_depth d h)

elements_end :
    (f d : ℕ) (rest : List ℕ) → read_elements (suc f) d (Tag.list_end ∷ rest) ≡ ok (nil, rest)
unfolding read_elements read_u8 peek_u8
elements_end f d rest = refl

elements_step :
    (f d : ℕ) (v : Value) (tail : List ℕ)
    → read_elements (suc f) d (encoding v ++ tail) ≡ (
        read_element f d (encoding v ++ tail) >>= λ (w, rest).
        read_elements f d rest >>= λ (vs, after). ok (cons w vs, after))
unfolding read_elements peek_u8
elements_step f d v tail = let (body, e, positive) = encoding_tag v in rw e (ground arith)

scalar_back :
    (v : Value) (f d : ℕ) (rest : List ℕ)
    → d ≤ Tag.max_depth
    → ReadsBack v
    → read_element (suc f) d (encoding v ++ rest) ≡ ok (normal v, rest)
scalar_back v f d rest shallow (tag, body, e, other, back) =
    rw e (element_step f d tag (body ++ rest) shallow other ∙ back rest)

IsKey-shallow : (d : ℕ) (v : Value) → IsKey d v → d ≤ Tag.max_depth
IsKey-shallow d null k = k
IsKey-shallow d (float x) k = k.0
IsKey-shallow d (time x) k = k.0
IsKey-shallow d (date_time x) k = k.0
IsKey-shallow d (list x) k = k.0
IsKey-shallow d _ k = k

mutual
  unfolding encoding normal

  pub read_element-encoding :
      (v : Value) (f d : ℕ) (rest : List ℕ)
      → IsValue v
      → IsKey d v
      → length (encoding v) ≤ f
      → read_element f d (encoding v ++ rest) ≡ ok (normal v, rest)
  read_element-encoding v zero d rest h k enough = absurd (omega (arith, length-encoding_pos v))
  read_element-encoding (list vs) (suc f) d rest h (shallow, keys) enough =
      list_step f d ((encodings vs ++ Tag.list_end ∷ []) ++ rest) shallow
      ∙ rw (
        append_assoc (encodings vs) (Tag.list_end ∷ []) rest,
        read_elements-encodings vs f (d + 1) rest h keys
            (omega (arith, length-append (encodings vs) (Tag.list_end ∷ []))),
      )
  read_element-encoding v (suc f) d rest h k enough =
      scalar_back v f d rest (IsKey-shallow d v k) (scalar-ReadsBack v d tt h k)

  read_elements-encodings :
      (vs : Values) (f d : ℕ) (rest : List ℕ)
      → AreValues vs
      → AreKeys d vs
      → length (encodings vs) < f
      → read_elements f d (encodings vs ++ Tag.list_end ∷ rest) ≡ ok (normals vs, rest)
  read_elements-encodings vs zero d rest h k enough = absurd (omega arith)
  read_elements-encodings nil (suc f) d rest h k enough = elements_end f d rest
  read_elements-encodings (cons v vs) (suc f) d rest (h, hs) (k, ks) enough =
      rw (append_assoc (encoding v) (encodings vs) (Tag.list_end ∷ rest)) (
        elements_step f d v (encodings vs ++ Tag.list_end ∷ rest)
        ∙ rw
            (read_element-encoding v f d (encodings vs ++ Tag.list_end ∷ rest) h k
              (omega (arith, length-append (encoding v) (encodings vs))))
            (rw (
              read_elements-encodings vs f d rest hs ks
                (omega (arith, length-append (encoding v) (encodings vs), length-encoding_pos v)))))

decode_step :
    (f : ℕ) (v : Value) (tail : List ℕ)
    → decode_key_loop (suc f) (encoding v ++ tail) ≡ (
        read_element (2 * length (encoding v ++ tail) + 1) 0 (encoding v ++ tail) >>= λ (w, rest).
        decode_key_loop f rest >>= λ ws. ok (cons w ws))
unfolding decode_key_loop
decode_step f v tail = let (body, e, positive) = encoding_tag v in rw e

decode_key_loop-encodings :
    (vs : Values) (f : ℕ)
    → AreValues vs
    → AreKeys 0 vs
    → length (encodings vs) ≤ f
    → decode_key_loop f (encodings vs) ≡ ok (normals vs)
unfolding encodings normals
decode_key_loop-encodings nil f h k enough = unfold decode_key_loop in refl
decode_key_loop-encodings (cons v vs) zero h k enough =
    absurd (omega (arith, length-append (encoding v) (encodings vs), length-encoding_pos v))
decode_key_loop-encodings (cons v vs) (suc f) (h, hs) (k, ks) enough =
    decode_step f v (encodings vs)
    ∙ rw
        (read_element-encoding v (2 * length (encoding v ++ encodings vs) + 1) 0 (encodings vs) h k
          (omega (arith, length-append (encoding v) (encodings vs))))
        (rw (
          decode_key_loop-encodings vs f hs ks
            (omega (arith, length-append (encoding v) (encodings vs), length-encoding_pos v))))

pub decode_key-encodings :
    (vs : Values) → AreValues vs → AreKeys 0 vs → decode_key (encodings vs) ≡ ok (normals vs)
unfolding decode_key
decode_key-encodings vs h k = decode_key_loop-encodings vs (length (encodings vs)) h k (omega arith)
