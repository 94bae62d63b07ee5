-- ===== src/Keys/Write.antt =====
-- The encoder of keys.rs.
use acetone.Prelude.{ℕ, zero, suc, ◌+◌, ◌-◌, true, false, not, List, [], ◌∷◌, ◌++◌}
use acetone.Prelude.{bit_and, bit_or, bit_xor, ◌^◌, ltb, leb, ◌==◌, if◌then◌else◌}
use acetone.Prelude.{length, take, drop, replicate}
use acetone.Prelude.Int.{ℤ, pos, negsuc, to_unsigned}
use acetone.Prelude.Bytes.{be_bytes}
use acetone.Prelude.Result.{Result, ok, err}
use acetone.Keys.Tag
use acetone.Keys.Cmp.{normalise_zero}
use acetone.Model.{nanos_per_day, max_offset_minutes, is_nan}
use acetone.Model.{
  Value, Values, null, bool, int, float, string, bytes, date, time, date_time, duration, list, nil,
  cons,
}

pub data KeyEncodeError : Type 0 where
  nan_not_permitted : KeyEncodeError
  time_out_of_range : ℕ → KeyEncodeError
  offset_out_of_range : ℤ → KeyEncodeError
  depth_exceeded : KeyEncodeError

-- A write into `out: &mut Vec<u8>` that may fail: either way `out` holds what was written.
pub data Written : Type 0 where
  wrote : List ℕ → Written
  failed : KeyEncodeError → List ℕ → Written

infixl 5 ◌>>=◌
abbrev pub ◌>>=◌ : Written → (List ℕ → Written) → Written
wrote out >>= f = f out
failed e out >>= f = failed e out

unfoldable pub flip_sign_i64 : ℤ → List ℕ
flip_sign_i64 n = be_bytes 8 (bit_xor (to_unsigned 63 n) Tag.sign_bit)

-- `i16::unsigned_abs`
abbrev pub unsigned_abs : ℤ → ℕ
unsigned_abs (pos n) = n
unsigned_abs (negsuc n) = n + 1

-- The loop `while data.len() - i >= GROUP` over what is left of the data. Each round takes eight
-- bytes, so the length of the data is fuel enough.
unfoldable pub write_chunked_loop : ℕ → List ℕ → List ℕ → List ℕ
write_chunked_loop zero out rem = out
write_chunked_loop (suc fuel) out rem =
    let more =
      write_chunked_loop fuel (out ++ take Tag.group rem ++ Tag.marker_continue ∷ [])
        (drop Tag.group rem) in
    if leb Tag.group (length rem)
    then more
    else out
      ++ (rem ++ (replicate (Tag.group - length rem) 0 ++ (Tag.marker_base + length rem) ∷ []))

unfoldable pub write_chunked : List ℕ → List ℕ → List ℕ
unfolding write_chunked_loop
write_chunked out contents = write_chunked_loop (length contents + 1) out contents

-- The body of a float: all bits inverted if the sign is set, else the sign bit set.
unfoldable pub float_body : ℕ → ℕ
float_body bits =
    if not (bit_and bits Tag.sign_bit == 0) then 2 ^ 64 - 1 - bits else bit_or bits Tag.sign_bit

abbrev check_depth : ℕ → List ℕ → Written → Written
check_depth depth out body = if ltb Tag.max_depth depth then failed depth_exceeded out else body

unfoldable mutual
  unfolding flip_sign_i64 write_chunked float_body normalise_zero

  pub write_element : Value → List ℕ → ℕ → Written
  write_element null out depth = check_depth depth out (wrote (out ++ Tag.null ∷ []))
  write_element (bool false) out depth = check_depth depth out (wrote (out ++ Tag.bool_false ∷ []))
  write_element (bool true) out depth = check_depth depth out (wrote (out ++ Tag.bool_true ∷ []))
  write_element (int n) out depth =
      check_depth depth out (wrote (out ++ (Tag.int ∷ flip_sign_i64 n)))
  write_element (float x) out depth = check_depth depth out (
      if is_nan x
      then failed nan_not_permitted out
      else wrote (out ++ (Tag.float ∷ be_bytes 8 (float_body (normalise_zero x)))))
  write_element (string s) out depth =
      check_depth depth out (wrote (write_chunked (out ++ Tag.string ∷ []) s))
  write_element (bytes b) out depth =
      check_depth depth out (wrote (write_chunked (out ++ Tag.bytes ∷ []) b))
  write_element (date d) out depth =
      check_depth depth out (wrote (out ++ (Tag.date ∷ flip_sign_i64 d.days)))
  write_element (time t) out depth = check_depth depth out (
      if leb nanos_per_day t.nanos
      then failed (time_out_of_range t.nanos) out
      else wrote (out ++ (Tag.time ∷ be_bytes 8 t.nanos)))
  write_element (date_time t) out depth = check_depth depth out (
      if ltb max_offset_minutes (unsigned_abs t.offset_minutes)
      then failed (offset_out_of_range t.offset_minutes) out
      else wrote (
          out
          ++ (Tag.date_time
              ∷ (flip_sign_i64 t.epoch_nanos
                  ++ be_bytes 2 (bit_xor (to_unsigned 15 t.offset_minutes) 0x8000)))))
  write_element (duration d) out depth = check_depth depth out (
      wrote (
        out
        ++ (Tag.duration
            ∷ (flip_sign_i64 d.months ++ (flip_sign_i64 d.days ++ flip_sign_i64 d.nanos)))))
  write_element (list items) out depth = check_depth depth out (
      write_elements items (out ++ Tag.list ∷ []) (depth + 1) >>= λ out'.
      wrote (out' ++ Tag.list_end ∷ []))

  -- `for item in items { write_element(out, item, depth)?; }`
  pub write_elements : Values → List ℕ → ℕ → Written
  write_elements nil out depth = wrote out
  write_elements (cons v vs) out depth =
      write_element v out depth >>= λ out'. write_elements vs out' depth

unfoldable pub encode_key_into : List ℕ → Values → Written
encode_key_into out tuple = write_elements tuple out 0

-- The caller sees `out` only on success.
abbrev pub finish : Written → Result KeyEncodeError (List ℕ)
finish (wrote out) = ok out
finish (failed e out) = err e

unfoldable pub encode_key : Values → Result KeyEncodeError (List ℕ)
unfolding encode_key_into
encode_key tuple = finish (encode_key_into [] tuple)

unfoldable pub encode_list_prefix : Values → Result KeyEncodeError (List ℕ)
encode_list_prefix elems = finish (write_elements elems (Tag.list ∷ []) 1)
