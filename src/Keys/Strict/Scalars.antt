-- ===== src/Keys/Strict/Scalars.antt =====
-- Successful reads of scalars, taken apart.
use acetone.Prelude.{
  ℕ, ◌-◌, ◌^◌, ◌≤◌, ◌<◌, ◌≡◌, refl, sym, ◌∙◌, ap, subst, List, [], ◌∷◌, ◌++◌, arith, true, false,
  Bool,
}
use acetone.Prelude.{
  append_assoc, ltb, ltb→ge, leb, leb→gt, ◌==◌, ==_iff, if◌then◌else◌, Bool-cases, inl, inr,
  bit_xor,
}
use acetone.Prelude.Bits.{and_below, and_above}
use acetone.Prelude.Int.{biased, to_signed, xor_top}
use acetone.Prelude.Bytes.{IsBytes, from_be}
use acetone.Prelude.Result.{ok, ◌>>◌, ensure, refuse, bind_parts}
use acetone.Keys.Tag
use acetone.Keys.Cmp.{normalise_zero}
use acetone.Keys.Write.{unsigned_abs}
use acetone.Keys.Read.{
  Read, read_array, read_i64, float_bits, read_scalar, read_int, read_float, read_string,
  read_bytes, read_date, read_time, read_date_time, read_duration, read_chunked, KeyDecodeError,
  invalid_utf8, non_canonical, time_of_day_out_of_range, utc_offset_out_of_range, nan_float_body,
  negative_zero_float_body,
}
use acetone.Keys.Encoding.{encoding, word, float_ordinal, IsKey}
use acetone.Keys.Strict.Bodies.{word_read, read_i64_ok, unsigned_read}
use acetone.Keys.Strict.Framing.{read_chunked_ok}
use acetone.Model.{IsValue, is_nan, is_zero, is_utf8, nanos_per_day, max_offset_minutes}
use acetone.Model.{Value, null, bool, float, string, time, date_time}

-- The input is a value's encoding and the rest, and the value may stand in a key at depth `d`.
pub record Exact (d : ℕ) (input : List ℕ) (q : Value × List ℕ) : Type 0 where
  pub split : input ≡ encoding q.0 ++ q.1
  pub value : IsValue q.0
  pub key : IsKey d q.0
  pub rest : IsBytes q.1

pub ok_injective : {A : Type 0} {a b : A} → ◌≡◌ {A = Read A} (ok a) (ok b) → a ≡ b
ok_injective e = cc

-- A successful test that refuses.
refused_not :
    (b : Bool) (e : KeyDecodeError) (r : Read (Value × List ℕ)) (q : Value × List ℕ)
    → (refuse b e >> r) ≡ ok q
    → (b ≡ false) × (r ≡ ok q)
refused_not true e r q h = cc
refused_not false e r q h = (refl, h)

ensured :
    (b : Bool) (e : KeyDecodeError) (r : Read (Value × List ℕ)) (q : Value × List ℕ)
    → (ensure b e >> r) ≡ ok q
    → (b ≡ true) × (r ≡ ok q)
ensured true e r q h = (refl, h)
ensured false e r q h = cc

-- The bits of a float body, and the body of those bits.
float_body_back :
    (enc : ℕ)
    → enc < 2 ^ 64
    → (float_bits enc == 2 ^ 63) ≡ false
    → (float_ordinal (normalise_zero (float_bits enc)) ≡ enc) × (float_bits enc < 2 ^ 64)
unfolding float_bits normalise_zero is_zero
float_body_back enc h = elim (Bool-cases (ltb enc (2 ^ 63))) [
  | inl low ↦ ground (arith, and_below 63 enc)
  | inr high ↦ ground (arith, and_above 63 (enc - 2 ^ 63), xor_top 63 enc)
]

module _ (d : ℕ) (input : List ℕ) (q : Value × List ℕ) (shallow : d ≤ Tag.max_depth)
    (h : IsBytes input) where
  Exact-int : read_int input ≡ ok q → Exact d (Tag.int ∷ input) q
  unfolding read_int encoding
  Exact-int e =
      let (p, e1, e2) = bind_parts (read_i64 input) _ e in
      let w = read_i64_ok input p h e1 in
      subst (Exact d (Tag.int ∷ input)) (ok_injective e2) record {
        split = ap (λ t. Tag.int ∷ t) w.split;
        value = w.signed;
        key = shallow;
        rest = w.rest;
      }

  Exact-date : read_date input ≡ ok q → Exact d (Tag.date ∷ input) q
  unfolding read_date encoding
  Exact-date e =
      let (p, e1, e2) = bind_parts (read_i64 input) _ e in
      let w = read_i64_ok input p h e1 in
      subst (Exact d (Tag.date ∷ input)) (ok_injective e2) record {
        split = ap (λ t. Tag.date ∷ t) w.split;
        value = w.signed;
        key = shallow;
        rest = w.rest;
      }

  Exact-string : read_string input ≡ ok q → Exact d (Tag.string ∷ input) q
  unfolding read_string encoding
  Exact-string e =
      let (p, e1, e2) = bind_parts (read_chunked input) _ e in
      let (valid, e3) = ensured (is_utf8 p.0) invalid_utf8 (ok (string p.0, p.1)) q e2 in
      let (split, text, rest) = read_chunked_ok input p h e1 in
      subst (Exact d (Tag.string ∷ input)) (ok_injective e3) record {
        split = ap (λ t. Tag.string ∷ t) split;
        value = (text, valid);
        key = shallow;
        rest = rest;
      }

  Exact-bytes : read_bytes input ≡ ok q → Exact d (Tag.bytes ∷ input) q
  unfolding read_bytes encoding
  Exact-bytes e =
      let (p, e1, e2) = bind_parts (read_chunked input) _ e in
      let (split, text, rest) = read_chunked_ok input p h e1 in
      subst (Exact d (Tag.bytes ∷ input)) (ok_injective e2)
        record { split = ap (λ t. Tag.bytes ∷ t) split; value = text; key = shallow; rest = rest }

  Exact-time : read_time input ≡ ok q → Exact d (Tag.time ∷ input) q
  unfolding read_time encoding
  Exact-time e =
      let (p, e1, e2) = bind_parts (read_array 8 input) _ e in
      let (early, e3) =
        refused_not (leb nanos_per_day (from_be 0 p.0)) (non_canonical time_of_day_out_of_range)
          (ok (time (record { nanos = from_be 0 p.0 }), p.1)) q e2 in
      let (split, small, rest) = unsigned_read 8 input p h e1 in
      subst (Exact d (Tag.time ∷ input)) (ok_injective e3) record {
        split = ap (λ t. Tag.time ∷ t) split;
        value = small;
        key = (shallow, leb→gt _ _ early);
        rest = rest;
      }

  Exact-float : read_float input ≡ ok q → Exact d (Tag.float ∷ input) q
  unfolding read_float encoding
  Exact-float e =
      let (p, e1, e2) = bind_parts (read_array 8 input) _ e in
      let enc = from_be 0 p.0 in
      let (number, e3) =
        refused_not (is_nan (float_bits enc)) (non_canonical nan_float_body)
          (refuse (float_bits enc == Tag.sign_bit) (non_canonical negative_zero_float_body)
            >> ok (float (float_bits enc), p.1))
          q e2 in
      let (positive, e4) =
        refused_not (float_bits enc == Tag.sign_bit) (non_canonical negative_zero_float_body)
          (ok (float (float_bits enc), p.1)) q e3 in
      let (split, small, rest) = unsigned_read 8 input p h e1 in
      let (back, fits) = float_body_back enc small positive in
      subst (Exact d (Tag.float ∷ input)) (ok_injective e4) record {
        split = ap (λ t. Tag.float ∷ t) (split ∙ rw (back));
        value = fits;
        key = (shallow, number);
        rest = rest;
      }

  Exact-date_time : read_date_time input ≡ ok q → Exact d (Tag.date_time ∷ input) q
  unfolding read_date_time encoding
  Exact-date_time e =
      let (p, e1, e2) = bind_parts (read_i64 input) _ e in
      let (r, e3, e4) = bind_parts (read_array 2 p.1) _ e2 in
      let offset = to_signed 15 (bit_xor (from_be 0 r.0) 0x8000) in
      let (near, e5) =
        refused_not (ltb max_offset_minutes (unsigned_abs offset))
          (non_canonical utc_offset_out_of_range)
          (ok (date_time (record { epoch_nanos = p.0; offset_minutes = offset }), r.1)) q e4 in
      let w = read_i64_ok input p h e1 in
      let w' = word_read 15 2 p.1 r refl w.rest e3 in
      subst (Exact d (Tag.date_time ∷ input)) (ok_injective e5) record {
        split =
            ap (λ t. Tag.date_time ∷ t)
              (w.split
                ∙ ap (λ t. word (biased 63 p.0) ++ t) w'.split
                ∙ sym (append_assoc (word (biased 63 p.0)) _ r.1));
        value = (w.signed, w'.signed);
        key = (shallow, ltb→ge _ _ near);
        rest = w'.rest;
      }

  Exact-duration : read_duration input ≡ ok q → Exact d (Tag.duration ∷ input) q
  unfolding read_duration encoding
  Exact-duration e =
      let (p, e1, e2) = bind_parts (read_i64 input) _ e in
      let (r, e3, e4) = bind_parts (read_i64 p.1) _ e2 in
      let (t, e5, e6) = bind_parts (read_i64 r.1) _ e4 in
      let w = read_i64_ok input p h e1 in
      let w' = read_i64_ok p.1 r w.rest e3 in
      let w'' = read_i64_ok r.1 t w'.rest e5 in
      let months = word (biased 63 p.0) in
      let days = word (biased 63 r.0) in
      subst (Exact d (Tag.duration ∷ input)) (ok_injective e6) record {
        split =
            ap (λ t. Tag.duration ∷ t)
              (w.split
                ∙ ap (λ t. months ++ t)
                    (w'.split ∙ ap (λ t. days ++ t) w''.split ∙ sym (append_assoc days _ t.1))
                ∙ sym (append_assoc months _ t.1));
        value = (w.signed, w'.signed, w''.signed);
        key = shallow;
        rest = w''.rest;
      }

-- One rung of `match tag`.
rung :
    {P : Type 0} (b : Bool) (x y : Read (Value × List ℕ)) (q : Value × List ℕ)
    → (if b then x else y) ≡ ok q
    → (b ≡ true → x ≡ ok q → P)
    → (y ≡ ok q → P)
    → P
rung true x y q e yes_case no_case = yes_case refl e
rung false x y q e yes_case no_case = no_case e

module _ (d tag : ℕ) (input : List ℕ) (q : Value × List ℕ) (shallow : d ≤ Tag.max_depth)
    (h : IsBytes input) where
  -- The tag was `t`, and what follows it was read exactly.
  tagged : (t : ℕ) → (tag == t) ≡ true → Exact d (t ∷ input) q → Exact d (tag ∷ input) q
  tagged t same x = subst (λ u. Exact d (u ∷ input) q) (sym ((==_iff tag t).0 same)) x

  -- A tag with no body.
  bare :
      (t : ℕ) (v : Value)
      → IsValue v
      → IsKey d v
      → (encoding v ≡ t ∷ [])
      → ◌≡◌ {A = Read (Value × List ℕ)} (ok (v, input)) (ok q)
      → Exact d (t ∷ input) q
  bare t v value key code e =
      subst (Exact d (t ∷ input)) (ok_injective e)
        record { split = rw code; value = value; key = key; rest = h }

  pub read_scalar_ok : read_scalar tag input ≡ ok q → Exact d (tag ∷ input) q
  unfolding read_scalar encoding
  read_scalar_ok e =
      rung (tag == Tag.null) _ _ q e
        (λ t x. tagged Tag.null t (bare Tag.null null tt shallow refl x))
        λ e.
          rung (tag == Tag.bool_false) _ _ q e
            (λ t x. tagged Tag.bool_false t (bare Tag.bool_false (bool false) tt shallow refl x))
            λ e.
              rung (tag == Tag.bool_true) _ _ q e
                (λ t x. tagged Tag.bool_true t (bare Tag.bool_true (bool true) tt shallow refl x))
                λ e.
                  rung (tag == Tag.int) _ _ q e
                    (λ t x. tagged Tag.int t (Exact-int d input q shallow h x))
                    λ e.
                      rung (tag == Tag.float) _ _ q e
                        (λ t x. tagged Tag.float t (Exact-float d input q shallow h x))
                        λ e.
                          rung (tag == Tag.string) _ _ q e
                            (λ t x. tagged Tag.string t (Exact-string d input q shallow h x))
                            λ e.
                              rung (tag == Tag.bytes) _ _ q e
                                (λ t x. tagged Tag.bytes t (Exact-bytes d input q shallow h x))
                                λ e.
                                  rung (tag == Tag.date) _ _ q e
                                    (λ t x. tagged Tag.date t (Exact-date d input q shallow h x))
                                    λ e.
                                      rung (tag == Tag.time) _ _ q e
                                        (λ t x.
                                          tagged Tag.time t (Exact-time d input q shallow h x))
                                        λ e.
                                          rung (tag == Tag.date_time) _ _ q e
                                            (λ t x.
                                              tagged Tag.date_time t
                                                (Exact-date_time d input q shallow h x))
                                            λ e.
                                              rung (tag == Tag.duration) _ _ q e
                                                (λ t x.
                                                  tagged Tag.duration t
                                                    (Exact-duration d input q shallow h x))
                                                λ e. cc
