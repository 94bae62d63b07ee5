-- ===== src/ValueCodec/Strict.antt =====
-- The decoder of values.rs accepts nothing but what the encoder writes.
pub mod Fields
pub mod Arms
pub mod Tagged
pub mod Scalars
use acetone.ValueCodec.Strict.Scalars.{scalar-Exact}
use acetone.Prelude.{
  append-nil, ◌⊎◌, inl, inr, ℕ, zero, suc, ◌+◌, ◌-◌, ◌*◌, ◌/◌, ◌%◌, ◌^◌, ◌≤◌, ◌<◌, ◌≡◌, ◌≢◌, refl,
  sym, ◌∙◌, ap, subst, true, false, Bool, not, ◌&&◌, ◌||◌, List, [], ◌∷◌, ◌++◌, arith, some, none,
  Option,
}
use acetone.Prelude.{
  ltb, leb, ◌==◌, ==_iff, ltb→lt, ltb→ge, leb→le, leb→gt, ge→ltb, by_test, length, append_assoc,
  bit_and, if◌then◌else◌, All,
}
use acetone.Prelude.Bits.{and_31}
use acetone.Prelude.Int.{ℤ, pos, negsuc, IsSigned}
use acetone.Prelude.Bytes.{be_bytes, IsBytes}
use acetone.Prelude.Result.{
  ok, err, out_of_fuel, ◌>>=◌, ◌>>◌, refuse, ensure, bind_parts, ensure_passed, refuse_passed,
}
use acetone.Keys.Write.{unsigned_abs}
use acetone.Cbor.{
  Read, ValueDecodeError, read_u8, read_i64, read_be_u64, read_wide, read_head, read_head_value,
  check_len, read_exact, unsigned_to_i64, negative_to_i64, to_i64,
}
use acetone.Cbor.Heads.{head, code, width}
use acetone.Cbor.Strict.{
  HeadRead, read_head_value-HeadRead, read_exact-parts, WideRead, read_wide-WideRead,
  read_head-exact,
}
use acetone.ValueCodec.Floats.{
  f16_bits_to_f64, f16_from_f64_exact, f32_from_f64_exact, widen, canonical_nan_bits,
}
use acetone.ValueCodec.Half.{is_half_nan, f16_bits_to_f64-IsHalf}
use acetone.ValueCodec.Single.{is_single_nan, widen-IsSingle}
use acetone.ValueCodec.Single.Through.{f32_from_f64_exact-widen}
use acetone.ValueCodec.Write.{
  write_float, write_half, write_single, tag_date, tag_time, tag_date_time, tag_duration,
  max_value_depth,
}
use acetone.ValueCodec.Read.{
  is_some, read_half, read_single, read_double, read_simple_or_float, map_err, array_error,
  days_error, expect_array, read_date, read_time, read_date_time, read_duration, read_tagged,
  read_bytes, read_string, read_unsigned, read_negative, read_scalar_item, to_i16,
}
use acetone.ValueCodec.Item.{item, int_item, IsItem, IsSized}
use acetone.Model.{
  Date, Time, DateTime, Duration, nanos_per_day, max_offset_minutes, is_nan, is_utf8, IsValue,
}
use acetone.Model.{
  Value, Values, null, bool, int, float, string, bytes, date, time, date_time, duration, list, nil,
  cons,
}
use acetone.Cbor.{length_overrun}
use acetone.ValueCodec.Write.{length_of}
use acetone.ValueCodec.Read.{read_value, read_items, decode_value}
use acetone.ValueCodec.Item.{items, AreItems, AreSized}
use acetone.Model.{AreValues}
use acetone.ValueCodec.Strict.Fields.{
  Exact, ok_same, left_bytes, head_split, IntRead, read_i64-IntRead,
}
use acetone.ValueCodec.Strict.Arms.{read_simple_or_float-Exact}
use acetone.ValueCodec.Strict.Tagged.{tagged-Exact}

-- The values of a list, and the input that they were read from.
record ExactItems (d n : ℕ) (input : List ℕ) (q : Values × List ℕ) : Type 0 where
  split : input ≡ items q.0 ++ q.1
  count : length_of q.0 ≡ n
  values : AreValues q.0
  sized : AreSized q.0
  keys : AreItems d q.0
  rest : IsBytes q.1

without_fuel : (d : ℕ) (input : List ℕ) (q : Value × List ℕ) → read_value zero d input ≢ ok q
unfolding read_value
without_fuel d input q = λ e. cc

items_without_fuel :
    (n d : ℕ) (input : List ℕ) (q : Values × List ℕ) → read_items zero n d input ≢ ok q
unfolding read_items
items_without_fuel n d input q = λ e. cc

-- What the arm of arrays does behind the first byte.
array_read : ℕ → ℕ → ℕ → List ℕ → Read (Value × List ℕ)
array_read f d ib after = read_head_value (bit_and ib 0x1f) after >>= λ (count, rest).
    refuse (ltb (length rest) count) (length_overrun count (length rest))
    >> (read_items f count (d + 1) rest >>= λ (vs, left). ok (list vs, left))

read_value_facts :
    (f d ib : ℕ) (after : List ℕ) (q : Value × List ℕ)
    → read_value (suc f) d (ib ∷ after) ≡ ok q
    → (d ≤ max_value_depth)
      × (((ib / 2 ^ 5 ≡ 4) × (array_read f d ib after ≡ ok q))
          ⊎ (((ib / 2 ^ 5 == 4) ≡ false)
              × (read_scalar_item (ib / 2 ^ 5) (bit_and ib 0x1f) after ≡ ok q)))
unfolding read_value read_u8 array_read
read_value_facts f d ib after q e =
    let (clear, e') = refuse_passed (ltb max_value_depth d) _ _ q e in
    (
      ltb→ge _ _ clear,
      by_test (ib / 2 ^ 5 == 4) (λ a. inl ((==_iff _ 4).0 a, rw a at e'))
          (λ a. inr (a, rw a at e')),
    )

read_value_nonempty : (f d : ℕ) (q : Value × List ℕ) → read_value (suc f) d [] ≢ ok q
unfolding read_value read_u8
read_value_nonempty f d q =
    λ e. let (clear, e') = refuse_passed (ltb max_value_depth d) _ _ q e in cc

array-parts :
    (f d ib : ℕ) (after : List ℕ) (q : Value × List ℕ)
    → array_read f d ib after ≡ ok q
    → (p : ℕ × List ℕ) × (read_head_value (bit_and ib 0x1f) after ≡ ok p)
      × (r : Values × List ℕ) × (read_items f p.0 (d + 1) p.1 ≡ ok r)
      × (q ≡ (list r.0, r.1))
unfolding array_read
array-parts f d ib after q e =
    let (p, e1, e2) = bind_parts (read_head_value (bit_and ib 0x1f) after) _ e in
    let (fits, e3) = refuse_passed (ltb (length p.1) p.0) _ _ q e2 in
    let (r, e4, e5) = bind_parts (read_items f p.0 (d + 1) p.1) _ e3 in
    (p, e1, r, e4, sym (ok_same e5))

list-Exact :
    (d ib : ℕ) (after : List ℕ) (p : ℕ × List ℕ) (r : Values × List ℕ)
    → d ≤ max_value_depth
    → ib / 2 ^ 5 ≡ 4
    → HeadRead (bit_and ib 0x1f) after p
    → ExactItems (d + 1) p.0 p.1 r
    → Exact d (ib ∷ after) (list r.0, r.1)
unfolding item
list-Exact d ib after p r deep high first x = record {
  split =
      head_split ib 4 after p high first
      ∙ ap (λ t. head 4 p.0 ++ t) x.split
      ∙ sym (append_assoc (head 4 p.0) (items r.0) r.1)
      ∙ ap (λ n. (head 4 n ++ items r.0) ++ r.1) (sym x.count);
  value = x.values;
  sized = (omega (arith, x.count, first.0), x.sized);
  key = (deep, x.keys);
  rest = x.rest;
}

nil-Exact :
    (f d : ℕ) (input : List ℕ) (q : Values × List ℕ)
    → IsBytes input
    → read_items (suc f) zero d input ≡ ok q
    → ExactItems d zero input q
unfolding read_items items
nil-Exact f d input q h e =
    subst (ExactItems d zero input) (ok_same e)
      record { split = refl; count = refl; values = tt; sized = tt; keys = tt; rest = h }

cons-parts :
    (f n d : ℕ) (input : List ℕ) (q : Values × List ℕ)
    → read_items (suc f) (suc n) d input ≡ ok q
    → (p : Value × List ℕ) × (read_value f d input ≡ ok p)
      × (r : Values × List ℕ) × (read_items f n d p.1 ≡ ok r)
      × (q ≡ (cons p.0 r.0, r.1))
unfolding read_items
cons-parts f n d input q e =
    let (p, e1, e2) = bind_parts (read_value f d input) _ e in
    let (r, e3, e4) = bind_parts (read_items f n d p.1) _ e2 in (p, e1, r, e3, sym (ok_same e4))

cons-Exact :
    (d n : ℕ) (input : List ℕ) (p : Value × List ℕ) (r : Values × List ℕ)
    → Exact d input p
    → ExactItems d n p.1 r
    → ExactItems d (suc n) input (cons p.0 r.0, r.1)
unfolding items
cons-Exact d n input p r x xs = record {
  split =
      x.split ∙ ap (λ t. item p.0 ++ t) xs.split ∙ sym (append_assoc (item p.0) (items r.0) r.1);
  count = omega (arith, xs.count);
  values = (x.value, xs.values);
  sized = (x.sized, xs.sized);
  keys = (x.key, xs.keys);
  rest = xs.rest;
}

mutual
  pub read_value-Exact :
      (f d : ℕ) (input : List ℕ) (q : Value × List ℕ)
      → IsBytes input
      → read_value f d input ≡ ok q
      → Exact d input q
  read_value-Exact zero d input q h e = absurd (without_fuel d input q e)
  read_value-Exact (suc f) d [] q h e = absurd (read_value_nonempty f d q e)
  read_value-Exact (suc f) d (ib ∷ after) q h e =
      let (deep, arms) = read_value_facts f d ib after q e in
      elim arms [
        | inl (high, run) ↦
            let (p, e1, r, e2, same) = array-parts f d ib after q run in
            let first = read_head_value-HeadRead (bit_and ib 0x1f) after p h.1 e1 in
            let hp =
              left_bytes (ib ∷ after) (head 4 p.0) p.1 h (head_split ib 4 after p high first) in
            subst (Exact d (ib ∷ after)) (sym same) (
              list-Exact d ib after p r deep high first
                (read_items-ExactItems f p.0 (d + 1) p.1 r hp e2))
        | inr (other, run) ↦ scalar-Exact d ib after q deep h other run
      ]

  read_items-ExactItems :
      (f n d : ℕ) (input : List ℕ) (q : Values × List ℕ)
      → IsBytes input
      → read_items f n d input ≡ ok q
      → ExactItems d n input q
  read_items-ExactItems zero n d input q h e = absurd (items_without_fuel n d input q e)
  read_items-ExactItems (suc f) zero d input q h e = nil-Exact f d input q h e
  read_items-ExactItems (suc f) (suc n) d input q h e =
      let (p, e1, r, e2, same) = cons-parts f n d input q e in
      let x = read_value-Exact f d input p h e1 in
      subst (ExactItems d (suc n) input) (sym same)
        (cons-Exact d n input p r x (read_items-ExactItems f n d p.1 r x.rest e2))

no_rest : (rest : List ℕ) → (length rest == 0) ≡ true → rest ≡ []
no_rest [] e = refl
no_rest (b ∷ rest) e =
    let none_left : length (b ∷ rest) ≡ 0 = (==_iff _ 0).0 e in absurd (omega (arith, none_left))

pub decode_value-Exact :
    (input : List ℕ) (v : Value)
    → IsBytes input
    → decode_value input ≡ ok v
    → (input ≡ item v) × IsValue v × IsSized v × IsItem 0 v
unfolding decode_value
decode_value-Exact input v h e =
    let (p, e1, e2) = bind_parts (read_value (2 * length input + 1) 0 input) _ e in
    let (ended, e3) = ensure_passed (length p.1 == 0) _ _ v e2 in
    let x = read_value-Exact (2 * length input + 1) 0 input p h e1 in
    subst (λ u. (input ≡ item u) × IsValue u × IsSized u × IsItem 0 u) (ok_same e3)
      (
        x.split ∙ ap (λ t. item p.0 ++ t) (no_rest p.1 ended) ∙ append-nil (item p.0),
        x.value,
        x.sized,
        x.key,
      )
