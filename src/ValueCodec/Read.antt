-- ===== src/ValueCodec/Read.antt =====
-- The strict decoder of values.rs.
use acetone.Prelude.{
  ℕ, zero, suc, ◌+◌, ◌*◌, ◌/◌, ◌^◌, true, false, not, ◌&&◌, ◌||◌, Bool, List, Option, none, some,
}
use acetone.Prelude.{bit_and, ltb, leb, ◌==◌, if◌then◌else◌, length}
use acetone.Prelude.Int.{ℤ, pos, negsuc}
use acetone.Prelude.Result.{ok, err, out_of_fuel, ◌>>=◌, ◌>>◌, ensure, refuse}
use acetone.Keys.Write.{unsigned_abs}
use acetone.Cbor.{
  Read, ValueDecodeError, read_u8, read_exact, read_be_u64, read_head_value, read_head, check_len,
  unsigned_to_i64, negative_to_i64, read_i64, major_unsigned, major_negative, major_text,
  unsupported, non_canonical, invalid_tag_content, unknown_tag, length_overrun, trailing_bytes,
  malformed_head, time_out_of_range, offset_out_of_range, depth_exceeded, invalid_utf8,
  unexpected_major_type, expected_integer, map_item, undefined, simple_value, break_item,
  non_canonical_nan, float_not_shortest, expected_days, expected_nanos, expected_array,
  wrong_array_length,
}
use acetone.ValueCodec.Write.{
  major_bytes, major_array, major_map, major_tag, tag_date, tag_time, tag_date_time, tag_duration,
  max_value_depth,
}
use acetone.ValueCodec.Floats.{
  canonical_nan_bits, f16_bits_to_f64, f16_from_f64_exact, f32_from_f64_exact, widen,
}
use acetone.ValueCodec.Half.{is_half_nan}
use acetone.ValueCodec.Single.{is_single_nan}
use acetone.Model.{nanos_per_day, max_offset_minutes, is_nan, is_utf8}
use acetone.Model.{
  Value, Values, null, bool, int, float, string, bytes, date, time, date_time, duration, list, nil,
  cons,
}

abbrev pub is_some : Option ℕ → Bool
is_some none = false
is_some (some x) = true

-- The three widths of floats, arms 25, 26 and 27.
unfoldable pub read_half : List ℕ → Read (Value × List ℕ)
read_half input = do
  (bits, rest) ← read_be_u64 2 input
  refuse (is_half_nan bits && not (bits == 0x7e00)) (non_canonical non_canonical_nan)
  ok (float (if is_half_nan bits then canonical_nan_bits else f16_bits_to_f64 bits), rest)

unfoldable pub read_single : List ℕ → Read (Value × List ℕ)
read_single input = do
  (bits, rest) ← read_be_u64 4 input
  refuse (is_single_nan bits) (non_canonical non_canonical_nan)
  let x = widen bits
  refuse (is_some (f16_from_f64_exact x)) (non_canonical float_not_shortest)
  ok (float x, rest)

unfoldable pub read_double : List ℕ → Read (Value × List ℕ)
read_double input = do
  (bits, rest) ← read_be_u64 8 input
  refuse (is_nan bits) (non_canonical non_canonical_nan)
  refuse (is_some (f16_from_f64_exact bits) || is_some (f32_from_f64_exact bits))
      (non_canonical float_not_shortest)
  ok (float bits, rest)

unfoldable pub read_simple_or_float : ℕ → List ℕ → Read (Value × List ℕ)
read_simple_or_float ai input =
    if ai == 20
    then ok (bool false, input)
    else if ai == 21
    then ok (bool true, input)
    else if ai == 22
    then ok (null, input)
    else if ai == 23
    then err (unsupported undefined)
    else if leb ai 24
    then err (unsupported simple_value)
    else if ai == 25
    then read_half input
    else if ai == 26
    then read_single input
    else if ai == 27
    then read_double input
    else if leb ai 30
    then err malformed_head
    else err (unsupported break_item)

-- The `map_err` of the readers below: one error is named anew.
abbrev pub days_error : ValueDecodeError → ValueDecodeError
days_error (unsupported expected_integer) = invalid_tag_content tag_date expected_days
days_error error = error

abbrev pub array_error : ℕ → ValueDecodeError → ValueDecodeError
array_error tag (unsupported unexpected_major_type) = invalid_tag_content tag expected_array
array_error tag error = error

abbrev pub map_err {ℓ} : {A : Type ℓ} → (ValueDecodeError → ValueDecodeError) → Read A → Read A
map_err f (ok value) = ok value
map_err f (err error) = err (f error)
map_err f out_of_fuel = out_of_fuel

unfoldable pub expect_array : ℕ → ℕ → List ℕ → Read (List ℕ)
expect_array count tag input = do
  (n, rest) ← map_err (array_error tag) (read_head major_array input)
  ensure (n == count) (invalid_tag_content tag wrong_array_length)
  ok rest

-- `i16::try_from`
abbrev pub to_i16 : ℤ → Read ℤ
to_i16 (pos n) = if ltb n (2 ^ 15) then ok (pos n) else err offset_out_of_range
to_i16 (negsuc n) = if ltb n (2 ^ 15) then ok (negsuc n) else err offset_out_of_range

-- The arms of `read_tagged`.
unfoldable pub read_date : List ℕ → Read (Value × List ℕ)
read_date input = do
  (days, rest) ← map_err days_error (read_i64 input)
  ok (date (record { days = days }), rest)

unfoldable pub read_time : List ℕ → Read (Value × List ℕ)
read_time input = do
  (ib, after) ← read_u8 input
  ensure (ib / 2 ^ 5 == major_unsigned) (invalid_tag_content tag_time expected_nanos)
  (nanos, rest) ← read_head_value (bit_and ib 0x1f) after
  refuse (leb nanos_per_day nanos) time_out_of_range
  ok (time (record { nanos = nanos }), rest)

unfoldable pub read_date_time : List ℕ → Read (Value × List ℕ)
read_date_time input = do
  after ← expect_array 2 tag_date_time input
  (epoch_nanos, after') ← read_i64 after
  (offset, rest) ← read_i64 after'
  offset_minutes ← to_i16 offset
  refuse (ltb max_offset_minutes (unsigned_abs offset_minutes)) offset_out_of_range
  ok (date_time (record { epoch_nanos = epoch_nanos; offset_minutes = offset_minutes }), rest)

unfoldable pub read_duration : List ℕ → Read (Value × List ℕ)
read_duration input = do
  after ← expect_array 3 tag_duration input
  (months, after') ← read_i64 after
  (days, after'') ← read_i64 after'
  (nanos, rest) ← read_i64 after''
  ok (duration (record { months = months; days = days; nanos = nanos }), rest)

unfoldable pub read_tagged : ℕ → List ℕ → Read (Value × List ℕ)
read_tagged tag input =
    if tag == tag_date
    then read_date input
    else if tag == tag_time
    then read_time input
    else if tag == tag_date_time
    then read_date_time input
    else if tag == tag_duration
    then read_duration input
    else err (unknown_tag tag)

-- The arms of `read_value` but that of arrays, at the additional information of the first byte.
unfoldable pub read_bytes : ℕ → List ℕ → Read (Value × List ℕ)
read_bytes ai input = do
  (declared, after) ← read_head_value ai input
  len ← check_len declared after
  (b, rest) ← read_exact len after
  ok (bytes b, rest)

unfoldable pub read_string : ℕ → List ℕ → Read (Value × List ℕ)
read_string ai input = do
  (declared, after) ← read_head_value ai input
  len ← check_len declared after
  (s, rest) ← read_exact len after
  ensure (is_utf8 s) invalid_utf8
  ok (string s, rest)

unfoldable pub read_unsigned : ℕ → List ℕ → Read (Value × List ℕ)
read_unsigned ai input = do
  (v, rest) ← read_head_value ai input
  n ← unsigned_to_i64 v
  ok (int n, rest)

unfoldable pub read_negative : ℕ → List ℕ → Read (Value × List ℕ)
read_negative ai input = do
  (v, rest) ← read_head_value ai input
  n ← negative_to_i64 v
  ok (int n, rest)

unfoldable pub read_scalar_item : ℕ → ℕ → List ℕ → Read (Value × List ℕ)
read_scalar_item major ai input =
    if major == major_unsigned
    then read_unsigned ai input
    else if major == major_negative
    then read_negative ai input
    else if major == major_bytes
    then read_bytes ai input
    else if major == major_text
    then read_string ai input
    else if major == major_map
    then err (unsupported map_item)
    else if major == major_tag
    then (read_head_value ai input >>= λ (tag, rest). read_tagged tag rest)
    else read_simple_or_float ai input

-- Two units of fuel for each byte: one for the value that begins there, and one for the round of the
-- loop around it.
unfoldable mutual
  pub read_value : ℕ → ℕ → List ℕ → Read (Value × List ℕ)
  read_value zero depth input = out_of_fuel
  read_value (suc fuel) depth input =
      refuse (ltb max_value_depth depth) depth_exceeded
      >> (read_u8 input >>= λ (ib, after).
          let array =
            (read_head_value (bit_and ib 0x1f) after >>= λ (count, rest).
            refuse (ltb (length rest) count) (length_overrun count (length rest))
            >> (read_items fuel count (depth + 1) rest >>= λ (vs, left). ok (list vs, left))) in
          if ib / 2 ^ 5 == major_array
          then array
          else read_scalar_item (ib / 2 ^ 5) (bit_and ib 0x1f) after)

  -- `for _ in 0..count`
  pub read_items : ℕ → ℕ → ℕ → List ℕ → Read (Values × List ℕ)
  read_items zero count depth input = out_of_fuel
  read_items (suc fuel) zero depth input = ok (nil, input)
  read_items (suc fuel) (suc count) depth input = read_value fuel depth input >>= λ (v, after).
      read_items fuel count depth after >>= λ (vs, rest). ok (cons v vs, rest)

unfoldable pub decode_value : List ℕ → Read Value
decode_value input = do
  (value, rest) ← read_value (2 * length input + 1) 0 input
  ensure (length rest == 0) trailing_bytes
  ok value
