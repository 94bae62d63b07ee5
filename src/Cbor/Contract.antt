-- ===== src/Cbor/Contract.antt =====
-- What the heads, the integers and the text strings of cbor.rs promise.
use acetone.Prelude.{ℕ, ◌-◌, ◌^◌, ◌<◌, ◌≡◌, refl, ◌∙◌, true, false, List, [], ◌++◌, arith}
use acetone.Prelude.{ltb, length, append_assoc, ge→ltb, gt→leb, length-append}
use acetone.Prelude.Int.{ℤ, pos, negsuc, IsSigned}
use acetone.Prelude.Bytes.{IsBytes, bytes_cmp}
use acetone.Prelude.Result.{ok, ◌>>=◌}
use acetone.Model.{is_utf8}
use acetone.Cbor.{
  write_head, write_int, write_text, canonical_str_cmp, read_u8, read_head, check_len, read_text,
  read_i64, unsigned_to_i64, negative_to_i64, to_i64,
}
use acetone.Cbor.Heads.{
  head, write_head-head, read_head-head, read_exact-append, code, code-lt_32, split_first,
  read_head_value-code,
}
use acetone.Cbor.Strict.{read_head-exact}
use acetone.Cbor.Order.{bytes_cmp-head}

-- A head of any of the eight major types and any 64-bit value reads back, and leaves what follows.
pub read_head-write_head :
    (major v : ℕ) (rest : List ℕ)
    → major < 8
    → v < 2 ^ 64
    → read_head major (write_head [] major v ++ rest) ≡ ok (v, rest)
read_head-write_head major v rest h k =
    rw (write_head-head [] major v h k) (read_head-head major v rest k)

-- From bytes a reader of one of the eight major types takes no head but the one that is written for
-- the value read, the shortest.
pub write_head-read_head :
    (major : ℕ) (input : List ℕ) (q : ℕ × List ℕ)
    → major < 8
    → IsBytes input
    → read_head major input ≡ ok q
    → (q.0 < 2 ^ 64) × (input ≡ write_head [] major q.0 ++ q.1)
write_head-read_head major input q h bytes e =
    let (small, split) = read_head-exact major input q bytes e in
    (small, rw (write_head-head [] major q.0 h small) split)

-- On texts of less than 2 ^ 64 bytes `canonical_str_cmp` is the byte order of their encodings.
pub canonical_str_cmp_lem :
    (a b : List ℕ)
    → length a < 2 ^ 64
    → length b < 2 ^ 64
    → bytes_cmp (write_text [] a) (write_text [] b) ≡ canonical_str_cmp a b
unfolding write_text canonical_str_cmp
canonical_str_cmp_lem a b ha hb =
    rw
      (
        write_head-head [] 3 (length a) (omega arith) ha,
        write_head-head [] 3 (length b) (omega arith) hb,
      )
      (bytes_cmp-head 3 (length a) (length b) a b ha hb)

-- A text, that is valid UTF-8 of less than 2 ^ 64 bytes, reads back, and leaves what follows.
pub read_text-write_text :
    (s rest : List ℕ)
    → length s < 2 ^ 64
    → is_utf8 s ≡ true
    → read_text (write_text [] s ++ rest) ≡ ok (s, rest)
unfolding read_text write_text check_len
read_text-write_text s rest h u =
    let fits : ltb (length (s ++ rest)) (length s) ≡ false =
      ge→ltb _ _ (omega (arith, length-append s rest)) in
    rw (append_assoc (write_head [] 3 (length s)) s rest) (
      rw
        (
          read_head-write_head 3 (length s) (s ++ rest) (omega arith) h,
          fits,
          read_exact-append s rest,
          u,
        )
        refl)

int_head :
    (major v : ℕ) (rest : List ℕ)
    → v < 2 ^ 64
    → read_i64 (head major v ++ rest) ≡ (to_i64 major v >>= λ n. ok (n, rest))
unfolding read_i64 read_u8 head
int_head major v rest h =
    let (quotient, remainder) = split_first major (code v) (code-lt_32 v) in
    rw (quotient, remainder, read_head_value-code v rest h) refl

-- Every 64-bit signed integer reads back, and leaves what follows.
pub read_i64-write_int :
    (n : ℤ) (rest : List ℕ) → IsSigned 63 n → read_i64 (write_int [] n ++ rest) ≡ ok (n, rest)
unfolding write_int unsigned_to_i64 negative_to_i64
read_i64-write_int (pos n) rest h =
    rw (write_head-head [] 0 n (omega arith) (omega arith))
      (int_head 0 n rest (omega arith) ∙ rw (gt→leb (2 ^ 63) n (omega arith)) refl)
read_i64-write_int (negsuc n) rest h =
    rw (write_head-head [] 1 n (omega arith) (omega arith))
      (int_head 1 n rest (omega arith) ∙ rw (ge→ltb (2 ^ 63 - 1) n (omega arith)) refl)
