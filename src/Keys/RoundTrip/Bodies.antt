-- ===== src/Keys/RoundTrip/Bodies.antt =====
-- Reading the fixed-width bodies back.
use acetone.Prelude.{ℕ, ◌-◌, ◌*◌, ◌^◌, ◌<◌, ◌≡◌, refl, List, ◌++◌, arith, false}
use acetone.Prelude.{bit_xor, ltb, ◌==◌, Bool-cases, inl, inr}
use acetone.Prelude.Int.{
  ℤ, IsSigned, biased, biased-lt, flip-biased, xor-xor, to_unsigned, to_unsigned-lt, to_signed,
  to_signed-unsigned,
}
use acetone.Prelude.Bits.{and_below, and_above, xor_clear}
use acetone.Prelude.Bytes.{be_bytes, from_be, from_be-be_bytes, length-be_bytes}
use acetone.Prelude.Result.{ok}
use acetone.Keys.Cmp.{normalise_zero}
use acetone.Keys.Read.{unflip_sign_i64, float_bits, read_i64}
use acetone.Keys.Encoding.{word, float_ordinal}
use acetone.Keys.RoundTrip.Framing.{read_array_front}
use acetone.Model.{is_nan, is_zero}

pub unbias :
    (k n : ℕ) (z : ℤ)
    → 2 * 2 ^ k ≡ 256 ^ n
    → IsSigned k z
    → to_signed k (bit_xor (from_be 0 (be_bytes n (biased k z))) (2 ^ k)) ≡ z
unbias k n z fits h =
    rw
      (
        from_be-be_bytes n (biased k z) (omega (arith, biased-lt k z h)),
        ← flip-biased k z h,
        xor-xor k (to_unsigned k z) (to_unsigned-lt k z h),
      )
      (to_signed-unsigned k z h)

pub read_i64-word :
    (z : ℤ) (rest : List ℕ) → IsSigned 63 z → read_i64 (word (biased 63 z) ++ rest) ≡ ok (z, rest)
unfolding unflip_sign_i64
read_i64-word z rest h =
    rw (read_array_front 8 (word (biased 63 z)) rest (length-be_bytes 8 _), unbias 63 8 z refl h)

pub float_bits-ordinal : (x : ℕ) → x < 2 ^ 64 → float_bits (float_ordinal x) ≡ x
unfolding float_bits
float_bits-ordinal x h = elim (Bool-cases (ltb x (2 ^ 63))) [
  | inl low ↦ ground (arith, and_above 63 x, xor_clear 63 x)
  | inr high ↦ ground (arith, and_below 63 (2 ^ 64 - 1 - x))
]

pub is_nan-normalise_zero : (x : ℕ) → is_nan x ≡ false → is_nan (normalise_zero x) ≡ false
unfolding is_nan is_zero normalise_zero
is_nan-normalise_zero x h = ground arith

pub normalise_zero-ne_negative : (x : ℕ) → (normalise_zero x == 2 ^ 63) ≡ false
unfolding is_zero normalise_zero
normalise_zero-ne_negative x = ground arith
