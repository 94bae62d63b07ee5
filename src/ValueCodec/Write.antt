-- ===== src/ValueCodec/Write.antt =====
-- The encoder of values.rs.
use acetone.Prelude.{Bool, ℕ, suc, ◌+◌, true, false, List, [], ◌∷◌, ◌++◌, Option, none, some}
use acetone.Prelude.{ltb, leb, if◌then◌else◌, length}
use acetone.Prelude.Int.{ℤ}
use acetone.Prelude.Bytes.{be_bytes}
use acetone.Prelude.Result.{Result, ok, err}
use acetone.Keys.Write.{unsigned_abs}
use acetone.Cbor.{write_head, write_int, major_unsigned, major_text}
use acetone.ValueCodec.Floats.{f16_from_f64_exact, f32_from_f64_exact}
use acetone.Model.{nanos_per_day, max_offset_minutes, is_nan}
use acetone.Model.{
  Value, Values, null, bool, int, float, string, bytes, date, time, date_time, duration, list, nil,
  cons,
}

abbrev pub major_bytes : ℕ
major_bytes = 2

abbrev pub major_array : ℕ
major_array = 4

abbrev pub major_map : ℕ
major_map = 5

abbrev pub major_tag : ℕ
major_tag = 6

abbrev pub major_simple : ℕ
major_simple = 7

abbrev pub simple_false : ℕ
simple_false = 0xf4

abbrev pub simple_true : ℕ
simple_true = 0xf5

abbrev pub simple_null : ℕ
simple_null = 0xf6

abbrev pub head_f16 : ℕ
head_f16 = 0xf9

abbrev pub head_f32 : ℕ
head_f32 = 0xfa

abbrev pub head_f64 : ℕ
head_f64 = 0xfb

abbrev pub tag_date : ℕ
tag_date = 100

abbrev pub tag_time : ℕ
tag_time = 74_100

abbrev pub tag_date_time : ℕ
tag_date_time = 74_101

abbrev pub tag_duration : ℕ
tag_duration = 74_102

abbrev pub max_value_depth : ℕ
max_value_depth = 128

pub data ValueEncodeError : Type 0 where
  time_out_of_range : ℕ → ValueEncodeError
  offset_out_of_range : ℤ → ValueEncodeError
  depth_exceeded : ValueEncodeError

-- A write into `out: &mut Vec<u8>` that may fail: either way `out` holds what was written.
pub data Written : Type 0 where
  wrote : List ℕ → Written
  failed : ValueEncodeError → List ℕ → Written

infixl 5 ◌>>=◌
abbrev pub ◌>>=◌ : Written → (List ℕ → Written) → Written
wrote out >>= f = f out
failed e out >>= f = failed e out

-- `if test { return Err(error) }`, before what follows.
abbrev pub check : Bool → ValueEncodeError → List ℕ → Written → Written
check true error out next = failed error out
check false error out next = next

-- The widths after that of a half, and the patterns after those that a half holds.
unfoldable pub write_single : List ℕ → ℕ → Option ℕ → List ℕ
write_single out x (some s) = out ++ (head_f32 ∷ be_bytes 4 s)
write_single out x none = out ++ (head_f64 ∷ be_bytes 8 x)

unfoldable pub write_half : List ℕ → ℕ → Option ℕ → List ℕ
unfolding write_single
write_half out x (some h) = out ++ (head_f16 ∷ be_bytes 2 h)
write_half out x none = write_single out x (f32_from_f64_exact x)

unfoldable pub write_float : List ℕ → ℕ → List ℕ
unfolding write_half
write_float out x =
    if is_nan x
    then out ++ (head_f16 ∷ be_bytes 2 0x7e00)
    else write_half out x (f16_from_f64_exact x)

abbrev pub length_of : Values → ℕ
length_of nil = 0
length_of (cons v vs) = suc (length_of vs)

-- The arms of `match value`, behind the test of the depth.
abbrev check_depth : ℕ → List ℕ → Written → Written
check_depth depth out body = check (ltb max_value_depth depth) depth_exceeded out body

unfoldable mutual
  unfolding write_float

  pub write_value : Value → List ℕ → ℕ → Written
  write_value null out depth = check_depth depth out (wrote (out ++ simple_null ∷ []))
  write_value (bool false) out depth = check_depth depth out (wrote (out ++ simple_false ∷ []))
  write_value (bool true) out depth = check_depth depth out (wrote (out ++ simple_true ∷ []))
  write_value (int n) out depth = check_depth depth out (wrote (write_int out n))
  write_value (float x) out depth = check_depth depth out (wrote (write_float out x))
  write_value (string s) out depth =
      check_depth depth out (wrote (write_head out major_text (length s) ++ s))
  write_value (bytes b) out depth =
      check_depth depth out (wrote (write_head out major_bytes (length b) ++ b))
  write_value (date d) out depth =
      check_depth depth out (wrote (write_int (write_head out major_tag tag_date) d.days))
  write_value (time t) out depth = check_depth depth out (
      check (leb nanos_per_day t.nanos) (time_out_of_range t.nanos) out
        (wrote (write_head (write_head out major_tag tag_time) major_unsigned t.nanos)))
  write_value (date_time t) out depth = check_depth depth out (
      check (ltb max_offset_minutes (unsigned_abs t.offset_minutes))
        (offset_out_of_range t.offset_minutes) out
        (wrote (
          write_int
            (write_int (write_head (write_head out major_tag tag_date_time) major_array 2)
              t.epoch_nanos)
            t.offset_minutes)))
  write_value (duration d) out depth = check_depth depth out (
      wrote (
        write_int
          (write_int
            (write_int (write_head (write_head out major_tag tag_duration) major_array 3) d.months)
            d.days)
          d.nanos))
  write_value (list items) out depth =
      check_depth depth out
        (write_values items (write_head out major_array (length_of items)) (depth + 1))

  -- `for item in items { write_value(out, item, depth)?; }`
  pub write_values : Values → List ℕ → ℕ → Written
  write_values nil out depth = wrote out
  write_values (cons v vs) out depth =
      write_value v out depth >>= λ out'. write_values vs out' depth

unfoldable pub encode_value_into : List ℕ → Value → Written
encode_value_into out value = write_value value out 0

-- `encode_value` drops its own buffer on an error.
abbrev pub finish : Written → Result ValueEncodeError (List ℕ)
finish (wrote out) = ok out
finish (failed e out) = err e

unfoldable pub encode_value : Value → Result ValueEncodeError (List ℕ)
unfolding encode_value_into
encode_value value = finish (encode_value_into [] value)
