-- ===== src/ValueCodec/Total.antt =====
-- The decoder of values.rs ends on every input: its fuel is enough.
use acetone.Cbor.Total.{
  ok_runs, read_u8_runs, read_exact_runs, read_be_u64_runs, read_head_value_runs, read_head_runs,
  read_i64_runs,
}
use acetone.Prelude.{
  ℕ, zero, suc, ◌+◌, ◌*◌, ◌/◌, ◌^◌, ◌≤◌, ◌<◌, ◌≡◌, refl, ◌≢◌, List, [], ◌∷◌, arith, bit_and,
}
use acetone.Prelude.{length, length-append, ltb, leb, ◌==◌}
use acetone.Prelude.Int.{ℤ, pos, negsuc}
use acetone.Prelude.Bytes.{IsBytes, be_bytes}
use acetone.Cbor.Heads.{width}
use acetone.Prelude.Result.{ok, err, out_of_fuel, ensure, bind_runs, if_runs, refuse_runs}
use acetone.Cbor.{
  Read, ValueDecodeError, read_u8, read_exact, read_be_u64, read_head_value, read_head, check_len,
  unsigned_to_i64, negative_to_i64, read_i64, depth_exceeded,
}
use acetone.Cbor.Strict.{read_head_value-HeadRead}
use acetone.ValueCodec.Write.{max_value_depth, tag_date, tag_time, tag_date_time, tag_duration}
use acetone.ValueCodec.Read.{
  map_err, days_error, array_error, expect_array, to_i16, read_date, read_time, read_date_time,
  read_duration, read_tagged, read_half, read_single, read_double, read_simple_or_float, read_bytes,
  read_string, read_unsigned, read_negative, read_scalar_item, read_value, read_items, decode_value,
}
use acetone.ValueCodec.Item.{item}
use acetone.ValueCodec.RoundTrip.{item_positive}
use acetone.ValueCodec.Strict.Fields.{left_bytes}
use acetone.ValueCodec.Strict.{read_value-Exact}
use acetone.ValueCodec.Half.{is_half_nan}
use acetone.ValueCodec.Single.{is_single_nan}
use acetone.ValueCodec.Floats.{widen, f16_from_f64_exact, f32_from_f64_exact}
use acetone.ValueCodec.Read.{is_some}
use acetone.Cbor.{non_canonical, non_canonical_nan, float_not_shortest}
use acetone.Prelude.{not, ◌&&◌, ◌||◌}
use acetone.Model.{is_nan, float, Value}

map_err_runs :
    {A : Type 0} (f : ValueDecodeError → ValueDecodeError) (m : Read A)
    → m ≢ out_of_fuel
    → map_err f m ≢ out_of_fuel
map_err_runs f (ok a) runs = λ e. cc
map_err_runs f (err error) runs = λ e. cc
map_err_runs f out_of_fuel runs = λ e. runs refl

expect_array_runs : (count tag : ℕ) (input : List ℕ) → expect_array count tag input ≢ out_of_fuel
unfolding expect_array
expect_array_runs count tag input =
    bind_runs (map_err (array_error tag) (read_head 4 input)) _
      (map_err_runs (array_error tag) _ (read_head_runs 4 input)) (λ p _ e. ground arith)

to_i16_runs : (n : ℤ) → to_i16 n ≢ out_of_fuel
to_i16_runs (pos n) = λ e. ground arith
to_i16_runs (negsuc n) = λ e. ground arith

read_tagged_runs : (tag : ℕ) (input : List ℕ) → read_tagged tag input ≢ out_of_fuel
unfolding read_tagged read_date read_time read_date_time read_duration
read_tagged_runs tag input =
    if_runs (tag == tag_date) _ _
      (λ _.
        bind_runs (map_err days_error (read_i64 input)) _
          (map_err_runs days_error _ (read_i64_runs input)) (λ p _ e. cc))
      λ _.
        if_runs (tag == tag_time) _ _
          (λ _. bind_runs (read_u8 input) _ (read_u8_runs input) λ p _.
            bind_runs (ensure (p.0 / 2 ^ 5 == 0) _) _ (λ e. ground arith)
              λ _ _.
                bind_runs (read_head_value (bit_and p.0 0x1f) p.1) _ (read_head_value_runs _ p.1)
                  (λ r _ e. ground arith))
          λ _.
            if_runs (tag == tag_date_time) _ _
              (λ _.
                bind_runs (expect_array 2 tag_date_time input) _ (expect_array_runs 2 _ input)
                  λ a _. bind_runs (read_i64 a) _ (read_i64_runs a) λ p _.
                    bind_runs (read_i64 p.1) _ (read_i64_runs p.1)
                      λ r _. bind_runs (to_i16 r.0) _ (to_i16_runs r.0) (λ n _ e. ground arith))
              λ _.
                if_runs (tag == tag_duration) _ _
                  (λ _.
                    bind_runs (expect_array 3 tag_duration input) _ (expect_array_runs 3 _ input)
                      λ a _. bind_runs (read_i64 a) _ (read_i64_runs a) λ p _.
                        bind_runs (read_i64 p.1) _ (read_i64_runs p.1)
                          λ r _. bind_runs (read_i64 r.1) _ (read_i64_runs r.1) (λ n _ e. cc))
                  (λ _ e. cc)

read_half_runs : (input : List ℕ) → read_half input ≢ out_of_fuel
unfolding read_half
read_half_runs input = bind_runs (read_be_u64 2 input) _ (read_be_u64_runs 2 input) λ p _.
    refuse_runs (is_half_nan p.0 && not (p.0 == 0x7e00)) (non_canonical non_canonical_nan) _
      (ok_runs _)

read_single_runs : (input : List ℕ) → read_single input ≢ out_of_fuel
unfolding read_single
read_single_runs input = bind_runs (read_be_u64 4 input) _ (read_be_u64_runs 4 input) λ p _.
    refuse_runs (is_single_nan p.0) (non_canonical non_canonical_nan) _ (
      refuse_runs (is_some (f16_from_f64_exact (widen p.0))) (non_canonical float_not_shortest) _
        (ok_runs (float (widen p.0), p.1)))

read_double_runs : (input : List ℕ) → read_double input ≢ out_of_fuel
unfolding read_double
read_double_runs input = bind_runs (read_be_u64 8 input) _ (read_be_u64_runs 8 input) λ p _.
    refuse_runs (is_nan p.0) (non_canonical non_canonical_nan) _ (
      refuse_runs (is_some (f16_from_f64_exact p.0) || is_some (f32_from_f64_exact p.0))
        (non_canonical float_not_shortest) _ (ok_runs (float p.0, p.1)))

read_simple_or_float_runs : (ai : ℕ) (input : List ℕ) → read_simple_or_float ai input ≢ out_of_fuel
unfolding read_simple_or_float
read_simple_or_float_runs ai input =
    if_runs (ai == 20) _ _ (λ _ e. cc)
      λ _.
        if_runs (ai == 21) _ _ (λ _ e. cc)
          λ _.
            if_runs (ai == 22) _ _ (λ _ e. cc)
              λ _.
                if_runs (ai == 23) _ _ (λ _ e. cc)
                  λ _.
                    if_runs (leb ai 24) _ _ (λ _ e. cc)
                      λ _.
                        if_runs (ai == 25) _ _ (λ _. read_half_runs input)
                          λ _.
                            if_runs (ai == 26) _ _ (λ _. read_single_runs input)
                              λ _.
                                if_runs (ai == 27) _ _ (λ _. read_double_runs input)
                                  λ _. if_runs (leb ai 30) _ _ (λ _ e. cc) (λ _ e. cc)

read_scalar_item_runs :
    (major ai : ℕ) (input : List ℕ) → read_scalar_item major ai input ≢ out_of_fuel
unfolding read_scalar_item read_unsigned read_negative read_bytes read_string unsigned_to_i64
    negative_to_i64 check_len
read_scalar_item_runs major ai input =
    let head_runs = read_head_value_runs ai input in
    if_runs (major == 0) _ _
      (λ _. bind_runs (read_head_value ai input) _ head_runs (λ p _ e. ground arith))
      λ _.
        if_runs (major == 1) _ _
          (λ _. bind_runs (read_head_value ai input) _ head_runs (λ p _ e. ground arith))
          λ _.
            if_runs (major == 2) _ _
              (λ _. bind_runs (read_head_value ai input) _ head_runs λ p _.
                bind_runs (check_len p.0 p.1) _ (λ e. ground arith)
                  λ len _. bind_runs (read_exact len p.1) _ (read_exact_runs len p.1) (λ s _ e. cc))
              λ _.
                if_runs (major == 3) _ _
                  (λ _. bind_runs (read_head_value ai input) _ head_runs λ p _.
                    bind_runs (check_len p.0 p.1) _ (λ e. ground arith)
                      λ len _.
                        bind_runs (read_exact len p.1) _ (read_exact_runs len p.1)
                          (λ s _ e. ground arith))
                  λ _.
                    if_runs (major == 5) _ _ (λ _ e. cc)
                      λ _.
                        if_runs (major == 6) _ _
                          (λ _.
                            bind_runs (read_head_value ai input) _ head_runs
                              (λ p _. read_tagged_runs p.0 p.1))
                          (λ _. read_simple_or_float_runs ai input)

-- A value takes a byte at least.
read_value_shrinks :
    (f d : ℕ) (input : List ℕ) (q : Value × List ℕ)
    → IsBytes input
    → read_value f d input ≡ ok q
    → (length q.1 < length input) × IsBytes q.1
read_value_shrinks f d input q h e =
    let x = read_value-Exact f d input q h e in
    (
      rw x.split
          (omega (arith, length-append (item q.0) q.1, item_positive q.0 d x.value x.sized x.key)),
      x.rest,
    )

head_shrinks :
    (ai : ℕ) (input : List ℕ) (q : ℕ × List ℕ)
    → IsBytes input
    → read_head_value ai input ≡ ok q
    → (length q.1 ≤ length input) × IsBytes q.1
head_shrinks ai input q h e =
    let (_, _, split) = read_head_value-HeadRead ai input q h e in
    (
      rw split (omega (arith, length-append (be_bytes (width q.0) q.0) q.1)),
      left_bytes input _ q.1 h split,
    )

read_value_empty : (f d : ℕ) → read_value (suc f) d [] ≢ out_of_fuel
unfolding read_value read_u8
read_value_empty f d = λ e. ground arith

mutual
  unfolding read_value read_u8

  read_value_runs :
      (f d : ℕ) (input : List ℕ)
      → IsBytes input
      → 2 * length input < f
      → read_value f d input ≢ out_of_fuel
  read_value_runs zero d input h enough = absurd (omega arith)
  read_value_runs (suc f) d [] h enough = read_value_empty f d
  read_value_runs (suc f) d (ib ∷ after) h enough =
      refuse_runs (ltb max_value_depth d) depth_exceeded _ (
        if_runs (ib / 2 ^ 5 == 4) _ _
          (λ _.
            bind_runs (read_head_value (bit_and ib 0x1f) after) _ (read_head_value_runs _ after)
              λ p e.
                let (shorter, rest) = head_shrinks _ after p h.1 e in
                refuse_runs _ _ _ (
                  bind_runs (read_items f p.0 (d + 1) p.1) _
                    (read_items_runs f p.0 (d + 1) p.1 rest (omega arith)) (λ r _ e. cc)))
          (λ _. read_scalar_item_runs (ib / 2 ^ 5) (bit_and ib 0x1f) after))

  read_items_runs :
      (f n d : ℕ) (input : List ℕ)
      → IsBytes input
      → 2 * length input + 1 < f
      → read_items f n d input ≢ out_of_fuel
  read_items_runs zero n d input h enough = absurd (omega arith)
  read_items_runs (suc f) zero d input h enough = λ e. cc
  read_items_runs (suc f) (suc n) d input h enough =
      bind_runs (read_value f d input) _ (read_value_runs f d input h (omega arith)) λ p e.
        let (shorter, rest) = read_value_shrinks f d input p h e in
        bind_runs (read_items f n d p.1) _ (read_items_runs f n d p.1 rest (omega arith))
          (λ r _ e. cc)

pub decode_value_runs : (input : List ℕ) → IsBytes input → decode_value input ≢ out_of_fuel
unfolding decode_value
decode_value_runs input h =
    bind_runs (read_value (2 * length input + 1) 0 input) _
      (read_value_runs (2 * length input + 1) 0 input h (omega arith)) (λ p _ e. ground arith)
