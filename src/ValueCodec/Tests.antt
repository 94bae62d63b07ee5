-- ===== src/ValueCodec/Tests.antt =====
-- A list of a float and an integer, and the theorems at it.
use acetone.Prelude.{◌≡◌, ◌≢◌, ◌⊎◌, refl, List, ℕ, [], ◌∷◌, ◌++◌, arith}
use acetone.Prelude.Int.{negsuc}
use acetone.Prelude.Bytes.{be_bytes}
use acetone.Prelude.Result.{ok, err, out_of_fuel}
use acetone.Model.{Value, float, int, list, nil, cons, time, is_nan, is_zero, IsValue}
use acetone.Cbor.{
  write_head, write_int, read_u8, read_head_value, read_wide, read_be_u64, read_exact, shift_in,
  negative_to_i64, non_canonical, float_not_shortest,
}
use acetone.ValueCodec.Floats.{f16_bits_to_f64, f16_from_f64_exact, widen}
use acetone.ValueCodec.Half.{is_half_nan}
use acetone.ValueCodec.Single.{is_single_nan}
use acetone.ValueCodec.Write.{
  wrote, failed, ValueEncodeError, time_out_of_range, write_float, write_value, encode_value,
  encode_value_into,
}
use acetone.ValueCodec.Read.{
  decode_value, read_value, read_scalar_item, read_negative, read_simple_or_float, read_half,
  read_single,
}
use acetone.ValueCodec.Item.{item, IsItem, IsSized}
use acetone.ValueCodec.Canonical.{canonical}
use acetone.ValueCodec.Contract.{
  encode_value_into_outcome, decode_value-encode_value, encode_value-decode_value,
  decode_value-ne-out_of_fuel,
}

-- [1.5, -1]
abbrev pair : Value
pair = list (cons (float 0x3ff8_0000_0000_0000) (cons (int (negsuc 0)) nil))

abbrev pair_bytes : List ℕ
pair_bytes = 0x82 ∷ 0xf9 ∷ 0x3e ∷ 0 ∷ 0x20 ∷ []

pair_written : encode_value pair ≡ ok pair_bytes
unfolding encode_value write_value write_head write_int write_float f16_from_f64_exact be_bytes
    is_nan is_zero
pair_written = refl

pair_read : decode_value pair_bytes ≡ ok pair
unfolding decode_value read_value read_scalar_item read_negative read_simple_or_float read_half
    read_u8 read_head_value read_wide read_be_u64 read_exact shift_in negative_to_i64
    f16_bits_to_f64 is_half_nan
pair_read = refl

-- 1.5 in the width of a single.
single_refused :
    decode_value (0xfa ∷ 0x3f ∷ 0xc0 ∷ 0 ∷ 0 ∷ []) ≡ err (non_canonical float_not_shortest)
unfolding decode_value read_value read_scalar_item read_simple_or_float read_single read_u8
    read_be_u64 read_exact shift_in f16_from_f64_exact widen is_zero is_single_nan
single_refused = refl

late_refused :
    encode_value (time (record { nanos = 86_400_000_000_000 }))
    ≡ err (time_out_of_range 86_400_000_000_000)
unfolding encode_value write_value
late_refused = refl

-- The head of the list stays in the buffer.
stopped_midway :
    encode_value_into (7 ∷ []) (list (cons (time (record { nanos = 86_400_000_000_000 })) nil))
    ≡ failed (time_out_of_range 86_400_000_000_000) (7 ∷ 0x81 ∷ [])
unfolding encode_value_into write_value write_head
stopped_midway = refl

decode_value-encode_value_example : decode_value pair_bytes ≡ ok (canonical pair)
decode_value-encode_value_example =
    decode_value-encode_value pair pair_bytes (omega arith, (omega arith, tt))
      (omega arith, (tt, (tt, tt))) pair_written

encode_value-decode_value_example :
    IsValue pair × IsSized pair × (encode_value pair ≡ ok pair_bytes)
encode_value-decode_value_example =
    encode_value-decode_value pair_bytes pair
      (omega arith, (omega arith, (omega arith, (omega arith, (omega arith, tt))))) pair_read

encode_value_into_outcome_example :
    (IsItem 0 pair × (encode_value_into (7 ∷ []) pair ≡ wrote ((7 ∷ []) ++ item pair)))
    ⊎ ((¬ IsItem 0 pair)
        × (e : ValueEncodeError) × (rest : List ℕ) × (encode_value_into (7 ∷ []) pair
            ≡ failed e ((7 ∷ []) ++ rest)))
encode_value_into_outcome_example =
    encode_value_into_outcome (7 ∷ []) pair (omega arith, (omega arith, tt))
      (omega arith, (tt, (tt, tt)))

decode_value-ne-out_of_fuel_example : decode_value (0x82 ∷ 0xf9 ∷ []) ≢ out_of_fuel
decode_value-ne-out_of_fuel_example =
    decode_value-ne-out_of_fuel (0x82 ∷ 0xf9 ∷ []) (omega arith, (omega arith, tt))
