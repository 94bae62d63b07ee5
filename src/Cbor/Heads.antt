-- ===== src/Cbor/Heads.antt =====
-- Heads in plain arithmetic: what is written, and that it reads back.
use acetone.Prelude.{by_test}
use acetone.Prelude.{
  ℕ, ◌+◌, ◌*◌, ◌/◌, ◌%◌, ◌^◌, ◌≤◌, ◌<◌, ◌≡◌, refl, sym, ◌∙◌, true, false, List, [], ◌∷◌, ◌++◌,
  arith,
}
use acetone.Prelude.{
  bit_and, bit_or, ltb, leb, ◌==◌, if◌then◌else◌, length, take-append, drop-append, length-append,
  ge→ltb, ltb→lt, ltb→ge, leb→le, leb→gt, le→leb,
}
use acetone.Prelude.Bits.{or_disjoint, and_31}
use acetone.Prelude.Bytes.{
  IsBytes, be_bytes, from_be, length-be_bytes, from_be-be_bytes, be_bytes-IsBytes, scale_digit,
  pow_positive,
}
use native.Mathlib.Nat.{pow-suc}
use acetone.Prelude.Result.{ok}
use acetone.Cbor.{
  write_head, read_u8, read_exact, shift_in, read_be_u64, read_wide, read_head_value, read_head,
}

-- The promised head: the low bits of the first byte, and how many bytes of the value follow it.
unfoldable pub code : ℕ → ℕ
code v =
    if ltb v 24
    then v
    else if leb v 0xff
    then 24
    else if leb v 0xffff
    then 25
    else if leb v 0xffff_ffff
    then 26
    else 27

unfoldable pub width : ℕ → ℕ
width v =
    if ltb v 24
    then 0
    else if leb v 0xff
    then 1
    else if leb v 0xffff
    then 2
    else if leb v 0xffff_ffff
    then 4
    else 8

unfoldable pub head : ℕ → ℕ → List ℕ
head major v = (major * 32 + code v) ∷ be_bytes (width v) v

pub code-lt_32 : (v : ℕ) → code v < 32
unfolding code
code-lt_32 v = ground arith

first_byte :
    (major low : ℕ) → major < 8 → low < 32 → bit_or (major * 2 ^ 5 % 2 ^ 8) low ≡ major * 32 + low
first_byte major low h k =
    let narrow : major * 2 ^ 5 % 2 ^ 8 ≡ major * 2 ^ 5 = omega arith in
    rw narrow (or_disjoint 5 major low k)

pub write_head-head :
    (out : List ℕ) (major v : ℕ)
    → major < 8
    → v < 2 ^ 64
    → write_head out major v ≡ out ++ head major v
unfolding write_head head be_bytes code width
write_head-head out major v h k =
    by_test (ltb v 24)
      (λ a.
        let same : v % 2 ^ 8 ≡ v = omega (arith, ltb→lt _ _ a) in
        rw (a, same, first_byte major v h (omega (arith, ltb→lt _ _ a))) refl)
      (λ a.
        by_test (leb v 0xff) (λ b. rw (a, b, first_byte major 24 h (omega arith)) refl)
          (λ b.
            by_test (leb v 0xffff)
              (λ c.
                let same : v % 2 ^ 16 ≡ v = omega (arith, leb→le _ _ c) in
                rw (a, b, c, same, first_byte major 25 h (omega arith)) refl)
              (λ c.
                by_test (leb v 0xffff_ffff)
                  (λ d.
                    let same : v % 2 ^ 32 ≡ v = omega (arith, leb→le _ _ d) in
                    rw (a, b, c, d, same, first_byte major 26 h (omega arith)) refl)
                  (λ d. rw (a, b, c, d, first_byte major 27 h (omega arith)) refl))))

below_product : (x p n : ℕ) → 1 ≤ p → x * p ≤ n → x ≤ n
below_product x p n h k = grind arith

pub shift_in-from_be :
    (v : ℕ) (bytes : List ℕ)
    → IsBytes bytes
    → (v + 1) * 256 ^ length bytes ≤ 2 ^ 64
    → shift_in v bytes ≡ from_be v bytes
unfolding shift_in from_be
shift_in-from_be v [] h k = refl
shift_in-from_be v (b ∷ bytes) (hb, h) k =
    let room : (v * 256 + b + 1) * 256 ^ length bytes ≤ 2 ^ 64 =
      omega
        (arith, scale_digit v b (256 ^ length bytes) hb, rw (pow-suc 256 (length bytes)) at k) in
    let narrow : v * 2 ^ 8 % 2 ^ 64 ≡ v * 2 ^ 8 =
      omega (arith, below_product _ _ _ (pow_positive (length bytes)) room) in
    rw (narrow, or_disjoint 8 v b hb) (shift_in-from_be (v * 256 + b) bytes h room)

pub read_exact-append : (x rest : List ℕ) → read_exact (length x) (x ++ rest) ≡ ok (x, rest)
unfolding read_exact
read_exact-append x rest =
    let fits : ltb (length (x ++ rest)) (length x) ≡ false =
      ge→ltb _ _ (omega (arith, length-append x rest)) in
    rw (fits, take-append x rest, drop-append x rest) refl

-- A word of at most eight bytes reads back.
pub read_be_u64-be_bytes :
    (width v : ℕ) (rest : List ℕ)
    → width ≤ 8
    → 256 ^ width ≤ 2 ^ 64
    → v < 256 ^ width
    → read_be_u64 width (be_bytes width v ++ rest) ≡ ok (v, rest)
unfolding read_be_u64
read_be_u64-be_bytes width v rest w p h =
    let read : read_exact width (be_bytes width v ++ rest) ≡ ok (be_bytes width v, rest) =
      rw (length-be_bytes width v) at (read_exact-append (be_bytes width v) rest) in
    let value : shift_in 0 (be_bytes width v) ≡ v =
      shift_in-from_be 0 (be_bytes width v) (be_bytes-IsBytes width v)
        (rw (length-be_bytes width v) (omega arith))
      ∙ from_be-be_bytes width v h in
    rw (read, value) refl

read_wide-be_bytes :
    (width least v : ℕ) (rest : List ℕ)
    → width ≤ 8
    → 256 ^ width ≤ 2 ^ 64
    → v < 256 ^ width
    → least ≤ v
    → read_wide width least (be_bytes width v ++ rest) ≡ ok (v, rest)
unfolding read_wide
read_wide-be_bytes width least v rest w p h k =
    rw (read_be_u64-be_bytes width v rest w p h, ge→ltb v least k) refl

pub split_first :
    (major low : ℕ)
    → low < 32
    → ((major * 32 + low) / 2 ^ 5 ≡ major) × (bit_and (major * 32 + low) 0x1f ≡ low)
split_first major low h = (omega arith, and_31 (major * 32 + low) ∙ omega arith)

pub read_head-step :
    (major low : ℕ) (rest : List ℕ)
    → low < 32
    → read_head major ((major * 32 + low) ∷ rest) ≡ read_head_value low rest
unfolding read_head read_u8
read_head-step major low rest h =
    let (quotient, remainder) = split_first major low h in
    let same : (major == major) ≡ true = ground arith in rw (quotient, remainder, same) refl

pub read_head-head :
    (major v : ℕ) (rest : List ℕ)
    → v < 2 ^ 64
    → read_head major (head major v ++ rest) ≡ ok (v, rest)
unfolding head code width read_head_value be_bytes
read_head-head major v rest k =
    by_test (ltb v 24)
      (λ a. rw a (
        read_head-step major v rest (omega (arith, ltb→lt _ _ a))
        ∙ rw (le→leb v 23 (omega (arith, ltb→lt _ _ a))) refl))
      (λ a.
        by_test (leb v 0xff)
          (λ b.
            rw (a, b)
              (read_head-step major 24 _ (omega arith)
                ∙ read_wide-be_bytes 1 24 v rest (omega arith) (omega arith)
                    (omega (arith, leb→le _ _ b)) (ltb→ge _ _ a)))
          (λ b.
            by_test (leb v 0xffff)
              (λ c.
                rw (a, b, c)
                  (read_head-step major 25 _ (omega arith)
                    ∙ read_wide-be_bytes 2 0x100 v rest (omega arith) (omega arith)
                        (omega (arith, leb→le _ _ c)) (omega (arith, leb→gt _ _ b))))
              (λ c.
                by_test (leb v 0xffff_ffff)
                  (λ d.
                    rw (a, b, c, d)
                      (read_head-step major 26 _ (omega arith)
                        ∙ read_wide-be_bytes 4 0x1_0000 v rest (omega arith) (omega arith)
                            (omega (arith, leb→le _ _ d)) (omega (arith, leb→gt _ _ c))))
                  (λ d.
                    rw (a, b, c, d)
                      (read_head-step major 27 _ (omega arith)
                        ∙ read_wide-be_bytes 8 0x1_0000_0000 v rest (omega arith) (omega arith)
                            (omega (arith, k)) (omega (arith, leb→gt _ _ d)))))))

-- The value of a head behind its first byte.
pub read_head_value-code :
    (v : ℕ) (rest : List ℕ)
    → v < 2 ^ 64
    → read_head_value (code v) (be_bytes (width v) v ++ rest) ≡ ok (v, rest)
unfolding head
read_head_value-code v rest h =
    sym (read_head-step 0 (code v) (be_bytes (width v) v ++ rest) (code-lt_32 v))
    ∙ read_head-head 0 v rest h
