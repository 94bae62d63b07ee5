-- ===== src/Cbor.antt =====
-- crates/acetone-model/src/cbor.rs: heads, integers and text strings of canonical CBOR. A byte vector
-- is a list of numbers, and a reader's position is what is left of its input.
pub mod Heads
pub mod Order
pub mod Strict
pub mod Total
pub mod Contract
mod Tests
use acetone.Prelude.{
  ℕ, zero, suc, ◌+◌, ◌-◌, ◌*◌, ◌/◌, ◌%◌, ◌^◌, true, false, List, [], ◌∷◌, ◌++◌, Ordering,
}
use acetone.Prelude.{
  bit_and, bit_or, ltb, leb, ◌==◌, if◌then◌else◌, length, take, drop, then_with, compare,
}
use acetone.Prelude.Int.{ℤ, pos, negsuc}
use acetone.Prelude.Bytes.{bytes_cmp, be_bytes}
use acetone.Prelude.Result.{Result, ok, err, ◌>>=◌, ◌>>◌, ensure, refuse}
use acetone.Model.{is_utf8}

abbrev pub major_unsigned : ℕ
major_unsigned = 0

abbrev pub major_negative : ℕ
major_negative = 1

abbrev pub major_text : ℕ
major_text = 3

-- The texts of `Unsupported` and of `NonCanonical`.
pub data Unsupported : Type 0 where
  unexpected_major_type indefinite_length expected_integer map_item : Unsupported
  undefined simple_value break_item : Unsupported

pub data NonCanonical : Type 0 where
  overlong_head non_canonical_nan float_not_shortest : NonCanonical

-- The reasons of `InvalidTagContent`.
pub data Reason : Type 0 where
  expected_days expected_nanos expected_array wrong_array_length : Reason

-- The errors of values.rs, which cbor.rs shares.
pub data ValueDecodeError : Type 0 where
  unexpected_end trailing_bytes malformed_head int_out_of_range invalid_utf8 : ValueDecodeError
  unsupported : Unsupported → ValueDecodeError
  non_canonical : NonCanonical → ValueDecodeError
  length_overrun : ℕ → ℕ → ValueDecodeError
  unknown_tag : ℕ → ValueDecodeError
  invalid_tag_content : ℕ → Reason → ValueDecodeError
  time_out_of_range offset_out_of_range depth_exceeded : ValueDecodeError

abbrev pub Read {ℓ} : Type ℓ → Type ℓ
Read A = Result ValueDecodeError A

unfoldable pub write_head : List ℕ → ℕ → ℕ → List ℕ
write_head out major value =
    let m = major * 2 ^ 5 % 2 ^ 8 in
    if ltb value 24
    then out ++ bit_or m (value % 2 ^ 8) ∷ []
    else if leb value 0xff
    then out ++ bit_or m 24 ∷ value % 2 ^ 8 ∷ []
    else if leb value 0xffff
    then out ++ (bit_or m 25 ∷ be_bytes 2 (value % 2 ^ 16))
    else if leb value 0xffff_ffff
    then out ++ (bit_or m 26 ∷ be_bytes 4 (value % 2 ^ 32))
    else out ++ (bit_or m 27 ∷ be_bytes 8 value)

-- `!(n as u64)` of a negative n is -1 - n.
unfoldable pub write_int : List ℕ → ℤ → List ℕ
write_int out (pos n) = write_head out major_unsigned n
write_int out (negsuc n) = write_head out major_negative n

unfoldable pub write_text : List ℕ → List ℕ → List ℕ
write_text out s = write_head out major_text (length s) ++ s

unfoldable pub canonical_str_cmp : List ℕ → List ℕ → Ordering
canonical_str_cmp a b = then_with (compare (length a) (length b)) (bytes_cmp a b)

unfoldable pub read_u8 : List ℕ → Read (ℕ × List ℕ)
read_u8 [] = err unexpected_end
read_u8 (b ∷ rest) = ok (b, rest)

unfoldable pub read_exact : ℕ → List ℕ → Read (List ℕ × List ℕ)
read_exact n input =
    if ltb (length input) n then err unexpected_end else ok (take n input, drop n input)

-- `for &b in bytes { v = (v << 8) | b; }`
unfoldable pub shift_in : ℕ → List ℕ → ℕ
shift_in v [] = v
shift_in v (b ∷ bytes) = shift_in (bit_or (v * 2 ^ 8 % 2 ^ 64) b) bytes

unfoldable pub read_be_u64 : ℕ → List ℕ → Read (ℕ × List ℕ)
read_be_u64 width input = do (bytes, rest) ← read_exact width input; ok (shift_in 0 bytes, rest)

-- A value that is not too small for its width.
unfoldable pub read_wide : ℕ → ℕ → List ℕ → Read (ℕ × List ℕ)
read_wide width least input = do
  (v, rest) ← read_be_u64 width input
  refuse (ltb v least) (non_canonical overlong_head)
  ok (v, rest)

unfoldable pub read_head_value : ℕ → List ℕ → Read (ℕ × List ℕ)
read_head_value ai input =
    if leb ai 23
    then ok (ai, input)
    else if ai == 24
    then read_wide 1 24 input
    else if ai == 25
    then read_wide 2 0x100 input
    else if ai == 26
    then read_wide 4 0x1_0000 input
    else if ai == 27
    then read_wide 8 0x1_0000_0000 input
    else if leb ai 30
    then err malformed_head
    else err (unsupported indefinite_length)

unfoldable pub read_head : ℕ → List ℕ → Read (ℕ × List ℕ)
read_head expected_major input = do
  (ib, rest) ← read_u8 input
  ensure (ib / 2 ^ 5 == expected_major) (unsupported unexpected_major_type)
  read_head_value (bit_and ib 0x1f) rest

unfoldable pub check_len : ℕ → List ℕ → Read ℕ
check_len declared input =
    if ltb (length input) declared
    then err (length_overrun declared (length input))
    else ok declared

unfoldable pub read_text : List ℕ → Read (List ℕ × List ℕ)
read_text input = do
  (declared, after) ← read_head major_text input
  len ← check_len declared after
  (bytes, rest) ← read_exact len after
  ensure (is_utf8 bytes) invalid_utf8
  ok (bytes, rest)

unfoldable pub unsigned_to_i64 : ℕ → Read ℤ
unsigned_to_i64 v = if leb (2 ^ 63) v then err int_out_of_range else ok (pos v)

-- The encoded v stands for -1 - v.
unfoldable pub negative_to_i64 : ℕ → Read ℤ
negative_to_i64 v = if ltb (2 ^ 63 - 1) v then err int_out_of_range else ok (negsuc v)

abbrev pub to_i64 : ℕ → ℕ → Read ℤ
to_i64 major v =
    if major == major_unsigned
    then unsigned_to_i64 v
    else if major == major_negative
    then negative_to_i64 v
    else err (unsupported expected_integer)

unfoldable pub read_i64 : List ℕ → Read (ℤ × List ℕ)
read_i64 input = do
  (ib, after) ← read_u8 input
  (v, rest) ← read_head_value (bit_and ib 0x1f) after
  n ← to_i64 (ib / 2 ^ 5) v
  ok (n, rest)
