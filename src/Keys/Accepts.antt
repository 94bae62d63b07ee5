-- ===== src/Keys/Accepts.antt =====
-- What the encoder writes, and which tuples it accepts.
mod Framing
pub use Framing.{
  chunks_full, chunks_part, write_chunked-chunks, flip_sign_i64-word, float_body-ordinal,
  offset-biased,
}
use acetone.Prelude.{
  ℕ, zero, suc, ◌+◌, ◌-◌, ◌*◌, ◌^◌, ◌≤◌, ◌<◌, ◌≡◌, refl, sym, ◌∙◌, List, [], ◌∷◌, ◌++◌, arith, true,
  false,
}
use acetone.Prelude.{
  Bool, append_assoc, append-nil, ltb, leb, if◌then◌else◌, ◌⊎◌, inl, inr, Bool-cases, ltb→lt,
  ltb→ge, leb→le, leb→gt,
}
use acetone.Prelude.Int.{ℤ, pos, negsuc}
use acetone.Prelude.Result.{Result, ok, err}
use acetone.Keys.Tag
use acetone.Keys.Cmp.{normalise_zero}
use acetone.Keys.Order.{normalise_zero-lt}
use acetone.Keys.Write.{
  Written, wrote, failed, KeyEncodeError, nan_not_permitted, time_out_of_range, offset_out_of_range,
  depth_exceeded, ◌>>=◌, unsigned_abs, write_element, write_elements, encode_key_into, encode_key,
  encode_list_prefix, finish, flip_sign_i64, write_chunked,
}
use acetone.Keys.Encoding.{chunks, encoding, encodings, IsKey, AreKeys}
use acetone.Model.{IsValue, AreValues, is_nan, nanos_per_day, max_offset_minutes}
use acetone.Model.{
  Value, Values, null, bool, int, float, string, bytes, date, time, date_time, duration, list, nil,
  cons,
}

-- A write either is of a key, and appends `code`, or is of no key, and fails.
abbrev pub Outcome : Type 0 → List ℕ → List ℕ → Written → Type 0
Outcome Key out code w =
    (Key × (w ≡ wrote (out ++ code)))
    ⊎ ((¬ Key) × (e : KeyEncodeError) × (part : List ℕ) × (w ≡ failed e (out ++ part)))

-- A test that refuses exactly the values that are no key.
unless_refused :
    (b : Bool) (Key : Type 0) (out code : List ℕ) (e : KeyEncodeError) (body : Written)
    → (b ≡ true → ¬ Key)
    → (b ≡ false → Outcome Key out code body)
    → Outcome Key out code (if b then failed e out else body)
unless_refused true Key out code e body no_key go = inr (no_key refl, e, [], rw append-nil)
unless_refused false Key out code e body no_key go = go refl

by_depth :
    (depth : ℕ) (Key : Type 0) (out code : List ℕ) (body : Written)
    → (Key → depth ≤ Tag.max_depth)
    → (depth ≤ Tag.max_depth → Outcome Key out code body)
    → Outcome Key out code (if ltb Tag.max_depth depth then failed depth_exceeded out else body)
by_depth depth Key out code body shallow go =
    unless_refused (ltb Tag.max_depth depth) Key out code depth_exceeded body
      (λ deep key. omega (arith, shallow key, ltb→lt _ _ deep)) (λ fits. go (ltb→ge _ _ fits))

-- One write after the other.
in_turn :
    (First Second Key : Type 0) (out code code' : List ℕ) (w : Written) (f : List ℕ → Written)
    → (Key → First × Second)
    → (First → Second → Key)
    → Outcome First out code w
    → Outcome Second (out ++ code) code' (f (out ++ code))
    → Outcome Key out (code ++ code') (w >>= f)
in_turn First Second Key out code code' w f split join (inr (refused, e, part, q)) after =
    inr ((λ key. refused (split key).0), e, part, rw q)
in_turn First Second Key out code code' w f split join (inl (k, q)) (inl (k', q')) =
    inl (join k k', rw (q, ← append_assoc out code code') q')
in_turn First Second Key out code code' w f split join (inl (k, q)) (inr (refused, e, part, q')) =
    inr ((λ key. refused (split key).1), e, code ++ part, rw (q, ← append_assoc out code part) q')

-- Bytes that are written before the first test of a part.
after_prefix :
    (Key : Type 0) (out before code : List ℕ) (w : Written)
    → Outcome Key (out ++ before) code w
    → Outcome Key out (before ++ code) w
after_prefix Key out before code w (inl (k, q)) = inl (k, q ∙ rw (append_assoc out before code))
after_prefix Key out before code w (inr (refused, e, part, q)) =
    inr (refused, e, before ++ part, q ∙ rw (append_assoc out before part))

write_framed :
    (out : List ℕ) (tag : ℕ) (s : List ℕ)
    → wrote (write_chunked (out ++ tag ∷ []) s) ≡ wrote (out ++ tag ∷ chunks 8 s)
write_framed out tag s = rw (write_chunked-chunks, append_assoc out (tag ∷ []) (chunks 8 s))

mutual
  unfolding write_element encoding

  pub write_element-Outcome :
      (v : Value) (out : List ℕ) (d : ℕ)
      → IsValue v
      → Outcome (IsKey d v) out (encoding v) (write_element v out d)
  write_element-Outcome null out d h =
      by_depth d (IsKey d null) out _ _ (λ k. k) (λ k. inl (k, refl))
  write_element-Outcome (bool true) out d h =
      by_depth d (IsKey d (bool true)) out _ _ (λ k. k) (λ k. inl (k, refl))
  write_element-Outcome (bool false) out d h =
      by_depth d (IsKey d (bool true)) out _ _ (λ k. k) (λ k. inl (k, refl))
  write_element-Outcome (int n) out d h =
      by_depth d (IsKey d (int n)) out _ _ (λ k. k) (λ k. inl (k, rw (flip_sign_i64-word n h)))
  write_element-Outcome (float x) out d h =
      by_depth d (IsKey d (float x)) out _ _ (λ k. k.0)
        (λ k.
          unless_refused (is_nan x) _ out _ nan_not_permitted _ (λ nan key. cc (nan, key.1))
            (λ number.
              inl
                ((k, number), rw (float_body-ordinal (normalise_zero x) (normalise_zero-lt x h)))))
  write_element-Outcome (string s) out d h =
      by_depth d (IsKey d (string s)) out _ _ (λ k. k)
        (λ k. inl (k, write_framed (out) Tag.string s))
  write_element-Outcome (bytes s) out d h =
      by_depth d (IsKey d (bytes s)) out _ _ (λ k. k) (λ k. inl (k, write_framed out Tag.bytes s))
  write_element-Outcome (date x) out d h =
      by_depth d (IsKey d (date x)) out _ _ (λ k. k)
        (λ k. inl (k, rw (flip_sign_i64-word x.days h)))
  write_element-Outcome (time t) out d h =
      by_depth d (IsKey d (time t)) out _ _ (λ k. k.0)
        (λ k.
          unless_refused (leb nanos_per_day t.nanos) _ out _ (time_out_of_range t.nanos) _
            (λ late key. omega (arith, leb→le _ _ late, key.1))
            (λ early. inl ((k, leb→gt _ _ early), refl)))
  write_element-Outcome (date_time t) out d (h, h') =
      by_depth d (IsKey d (date_time t)) out _ _ (λ k. k.0)
        (λ k.
          unless_refused (ltb max_offset_minutes (unsigned_abs t.offset_minutes)) _ out _
            (offset_out_of_range t.offset_minutes) _
            (λ far key. omega (arith, ltb→lt _ _ far, key.1))
            (λ near. inl (
              (k, ltb→ge _ _ near),
              rw (flip_sign_i64-word t.epoch_nanos h, offset-biased t.offset_minutes h'),
            )))
  write_element-Outcome (duration x) out d (h, h', h'') =
      by_depth d (IsKey d (duration x)) out _ _ (λ k. k)
        (λ k. inl (
          k,
          rw (
            flip_sign_i64-word x.months h,
            flip_sign_i64-word x.days h',
            flip_sign_i64-word x.nanos h'',
          ),
        ))
  write_element-Outcome (list vs) out d h =
      by_depth d (IsKey d (list vs)) out _ _ (λ k. k.0)
        (λ k. after_prefix _ out (Tag.list ∷ []) _ _ (
          in_turn (AreKeys (d + 1) vs) Unit _ (out ++ Tag.list ∷ []) _ _ _ _ (λ key. (key.1, tt))
            (λ keys _. (k, keys)) (write_elements-Outcome vs (out ++ Tag.list ∷ []) (d + 1) h)
            (inl (tt, refl))))

  pub write_elements-Outcome :
      (vs : Values) (out : List ℕ) (d : ℕ)
      → AreValues vs
      → Outcome (AreKeys d vs) out (encodings vs) (write_elements vs out d)
  write_elements-Outcome nil out d h = inl (tt, rw append-nil)
  write_elements-Outcome (cons v vs) out d (h, hs) =
      in_turn (IsKey d v) (AreKeys d vs) _ out _ _ _ _ (λ key. key) (λ k ks. (k, ks))
        (write_element-Outcome v out d h) (write_elements-Outcome vs (out ++ encoding v) d hs)

-- The encoder on every tuple of Rust values, from the front of the list of its outcomes.
pub encode_key_outcome :
    (vs : Values)
    → AreValues vs
    → (AreKeys 0 vs × (encode_key vs ≡ ok (encodings vs)))
      ⊎ ((¬ AreKeys 0 vs) × (e : KeyEncodeError) × (encode_key vs ≡ err e))
unfolding encode_key
encode_key_outcome vs h = elim (write_elements-Outcome vs [] 0 h) [
  | inl (k, q) ↦ inl (k, rw q)
  | inr (refused, e, part, q) ↦ inr (refused, e, rw q)
]
