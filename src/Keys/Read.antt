-- ===== src/Keys/Read.antt =====
-- The strict decoder of keys.rs.
use acetone.Prelude.{
  ℕ, zero, suc, ◌+◌, ◌-◌, ◌*◌, ◌^◌, Bool, true, false, not, ◌&&◌, List, [], ◌∷◌, ◌++◌,
}
use acetone.Prelude.{bit_and, bit_xor, ltb, leb, ◌==◌, if◌then◌else◌, length, take, drop}
use acetone.Prelude.Int.{ℤ, to_signed}
use acetone.Prelude.Bytes.{from_be}
use acetone.Prelude.Result.{Result, ok, err, out_of_fuel, ◌>>=◌, ◌>>◌, ensure, refuse}
use acetone.Keys.Tag
use acetone.Keys.Write.{unsigned_abs}
use acetone.Model.{nanos_per_day, max_offset_minutes, is_nan, is_utf8}
use acetone.Model.{
  Value, Values, null, bool, int, float, string, bytes, date, time, date_time, duration, list, nil,
  cons,
}

-- The texts of `NonCanonical`.
pub data NonCanonical : Type 0 where
  nan_float_body negative_zero_float_body time_of_day_out_of_range : NonCanonical
  utc_offset_out_of_range non_zero_chunk_padding : NonCanonical

pub data KeyDecodeError : Type 0 where
  unexpected_end : KeyDecodeError
  unknown_tag : ℕ → KeyDecodeError
  invalid_chunk_marker : ℕ → KeyDecodeError
  non_canonical : NonCanonical → KeyDecodeError
  invalid_utf8 : KeyDecodeError
  depth_exceeded : KeyDecodeError

abbrev pub Read {ℓ} : Type ℓ → Type ℓ
Read A = Result KeyDecodeError A

unfoldable pub read_u8 : List ℕ → Read (ℕ × List ℕ)
read_u8 [] = err unexpected_end
read_u8 (b ∷ rest) = ok (b, rest)

unfoldable pub peek_u8 : List ℕ → Read ℕ
peek_u8 [] = err unexpected_end
peek_u8 (b ∷ rest) = ok b

unfoldable pub read_array : ℕ → List ℕ → Read (List ℕ × List ℕ)
read_array n input =
    if ltb (length input) n then err unexpected_end else ok (take n input, drop n input)

unfoldable pub unflip_sign_i64 : List ℕ → ℤ
unflip_sign_i64 bs = to_signed 63 (bit_xor (from_be 0 bs) Tag.sign_bit)

-- `.iter().any(|&b| b != 0)`
unfoldable pub any_nonzero : List ℕ → Bool
any_nonzero [] = false
any_nonzero (b ∷ bs) = if b == 0 then any_nonzero bs else true

-- The chunk that ends the string: `marker - MARKER_BASE` bytes of the group, and zeros.
unfoldable pub last_group : List ℕ → ℕ → List ℕ → List ℕ → Read (List ℕ × List ℕ)
last_group out marker group rest = do
  ensure (leb Tag.marker_base marker && ltb marker Tag.marker_continue)
      (invalid_chunk_marker marker)
  let meaningful = marker - Tag.marker_base
  refuse (any_nonzero (drop meaningful group)) (non_canonical non_zero_chunk_padding)
  ok (out ++ take meaningful group, rest)

-- Each round takes nine bytes.
unfoldable pub read_chunked_loop : ℕ → List ℕ → List ℕ → Read (List ℕ × List ℕ)
read_chunked_loop zero out input = out_of_fuel
read_chunked_loop (suc fuel) out input = do
  (group, after) ← read_array Tag.group input
  (marker, rest) ← read_u8 after
  let more = read_chunked_loop fuel (out ++ group) rest
  if marker == Tag.marker_continue then more else last_group out marker group rest

unfoldable pub read_chunked : List ℕ → Read (List ℕ × List ℕ)
read_chunked input = read_chunked_loop (length input + 1) [] input

unfoldable pub float_bits : ℕ → ℕ
float_bits enc =
    if not (bit_and enc Tag.sign_bit == 0) then bit_xor enc Tag.sign_bit else 2 ^ 64 - 1 - enc

abbrev pub read_i64 : List ℕ → Read (ℤ × List ℕ)
read_i64 input = do (body, rest) ← read_array 8 input; ok (unflip_sign_i64 body, rest)

unfoldable pub read_float : List ℕ → Read (Value × List ℕ)
read_float input = do
  (body, rest) ← read_array 8 input
  let bits = float_bits (from_be 0 body)
  refuse (is_nan bits) (non_canonical nan_float_body)
  refuse (bits == Tag.sign_bit) (non_canonical negative_zero_float_body)
  ok (float bits, rest)

unfoldable pub read_string : List ℕ → Read (Value × List ℕ)
read_string input = do
  (body, rest) ← read_chunked input
  ensure (is_utf8 body) invalid_utf8
  ok (string body, rest)

unfoldable pub read_bytes : List ℕ → Read (Value × List ℕ)
read_bytes input = do (body, rest) ← read_chunked input; ok (bytes body, rest)

unfoldable pub read_date : List ℕ → Read (Value × List ℕ)
read_date input = do (days, rest) ← read_i64 input; ok (date (record { days = days }), rest)

unfoldable pub read_int : List ℕ → Read (Value × List ℕ)
read_int input = do (n, rest) ← read_i64 input; ok (int n, rest)

unfoldable pub read_time : List ℕ → Read (Value × List ℕ)
read_time input = do
  (body, rest) ← read_array 8 input
  let nanos = from_be 0 body
  refuse (leb nanos_per_day nanos) (non_canonical time_of_day_out_of_range)
  ok (time (record { nanos = nanos }), rest)

unfoldable pub read_date_time : List ℕ → Read (Value × List ℕ)
read_date_time input = do
  (epoch_nanos, after) ← read_i64 input
  (body, rest) ← read_array 2 after
  let offset_minutes = to_signed 15 (bit_xor (from_be 0 body) 0x8000)
  refuse (ltb max_offset_minutes (unsigned_abs offset_minutes))
      (non_canonical utc_offset_out_of_range)
  ok (date_time (record { epoch_nanos = epoch_nanos; offset_minutes = offset_minutes }), rest)

unfoldable pub read_duration : List ℕ → Read (Value × List ℕ)
read_duration input = do
  (months, after) ← read_i64 input
  (days, after') ← read_i64 after
  (nanos, rest) ← read_i64 after'
  ok (duration (record { months = months; days = days; nanos = nanos }), rest)

-- The arms of `match tag` but that of lists.
unfoldable pub read_scalar : ℕ → List ℕ → Read (Value × List ℕ)
read_scalar tag input =
    if tag == Tag.null
    then ok (null, input)
    else if tag == Tag.bool_false
    then ok (bool false, input)
    else if tag == Tag.bool_true
    then ok (bool true, input)
    else if tag == Tag.int
    then read_int input
    else if tag == Tag.float
    then read_float input
    else if tag == Tag.string
    then read_string input
    else if tag == Tag.bytes
    then read_bytes input
    else if tag == Tag.date
    then read_date input
    else if tag == Tag.time
    then read_time input
    else if tag == Tag.date_time
    then read_date_time input
    else if tag == Tag.duration
    then read_duration input
    else err (unknown_tag tag)

-- Two units of fuel for each byte are enough: one for the element that begins there, and one for the
-- round of the loop around it.
unfoldable mutual
  pub read_element : ℕ → ℕ → List ℕ → Read (Value × List ℕ)
  read_element zero depth input = out_of_fuel
  read_element (suc fuel) depth input = do
    refuse (ltb Tag.max_depth depth) depth_exceeded
    (tag, rest) ← read_u8 input
    let items = read_elements fuel (depth + 1) rest
    if tag == Tag.list then (items >>= λ (vs, after). ok (list vs, after)) else read_scalar tag rest

  -- `while reader.peek_u8()? != TAG_LIST_END`, and the terminator.
  pub read_elements : ℕ → ℕ → List ℕ → Read (Values × List ℕ)
  read_elements zero depth input = out_of_fuel
  read_elements (suc fuel) depth input = do
    b ← peek_u8 input
    let more = read_element fuel depth input >>= λ (v, rest).
        read_elements fuel depth rest >>= λ (vs, after). ok (cons v vs, after)
    if b == Tag.list_end then (read_u8 input >>= λ (_, after). ok (nil, after)) else more

-- `while reader.remaining() > 0`
unfoldable pub decode_key_loop : ℕ → List ℕ → Read Values
decode_key_loop fuel [] = ok nil
decode_key_loop zero (b ∷ bs) = out_of_fuel
decode_key_loop (suc fuel) (b ∷ bs) = do
  (v, rest) ← read_element (2 * length (b ∷ bs) + 1) 0 (b ∷ bs)
  vs ← decode_key_loop fuel rest
  ok (cons v vs)

unfoldable pub decode_key : List ℕ → Read Values
decode_key input = decode_key_loop (length input) input
