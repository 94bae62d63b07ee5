-- ===== src/Cbor/Tests.antt =====
-- Heads, integers and texts at the bounds of their widths, and the theorems at them.
use acetone.Prelude.{◌≡◌, refl, [], ◌∷◌, arith}
use acetone.Prelude.Bytes.{bytes_cmp, be_bytes}
use acetone.Prelude.Result.{err}
use acetone.Cbor.{
  write_head, write_text, canonical_str_cmp, read_u8, read_exact, read_head, read_head_value,
  read_wide, read_be_u64, shift_in, overlong_head, non_canonical,
}
use acetone.Cbor.Contract.{canonical_str_cmp_lem}

-- The last value of two bytes, and the first of three.
two_bytes : write_head [] 2 255 ≡ 0x58 ∷ 0xff ∷ []
unfolding write_head be_bytes
two_bytes = refl

three_bytes : write_head [] 2 256 ≡ 0x59 ∷ 1 ∷ 0 ∷ []
unfolding write_head be_bytes
three_bytes = refl

overlong_refused : read_head 2 (0x58 ∷ 23 ∷ []) ≡ err (non_canonical overlong_head)
unfolding read_head read_u8 read_head_value read_wide read_be_u64 read_exact shift_in
overlong_refused = refl

canonical_str_cmp_lem_example :
    bytes_cmp (write_text [] (122 ∷ [])) (write_text [] (97 ∷ 97 ∷ []))
    ≡ canonical_str_cmp (122 ∷ []) (97 ∷ 97 ∷ [])
canonical_str_cmp_lem_example =
    canonical_str_cmp_lem (122 ∷ []) (97 ∷ 97 ∷ []) (omega arith) (omega arith)
