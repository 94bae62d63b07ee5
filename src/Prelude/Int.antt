-- ===== src/Prelude/Int.antt =====
-- Signed machine integers: `i64` and `i16` as integers, and their casts to and from unsigned words.
use Prim.Native.Nat.{ℕ, ◌+◌, ◌-◌, ◌*◌, ◌^◌, ◌≤◌, ◌<◌, compare, Ordering, bit_xor}
use mathlib.Core.Path.{◌≡◌, subst, sym, ◌∙◌}
use mathlib.Core.Logic.{inl, inr}
use native.Mathlib.Omega.{arith}
use acetone.Prelude.Tests.{ltb, if◌then◌else◌, Bool-cases, ltb→lt, ltb→ge}
use acetone.Prelude.Bits.{xor_set, xor_clear}

-- `negsuc n` is -(n + 1).
pub data ℤ : Type 0 where
  pos : ℕ → ℤ
  negsuc : ℕ → ℤ

-- A value of the signed type with `k + 1` bits.
abbrev pub IsSigned : ℕ → ℤ → Type 0
IsSigned k (pos n) = n < 2 ^ k
IsSigned k (negsuc n) = n < 2 ^ k

-- `cmp` of a signed integer type
abbrev pub int_cmp : ℤ → ℤ → Ordering
int_cmp (pos a) (pos b) = compare a b
int_cmp (pos a) (negsuc b) = Ordering.gt
int_cmp (negsuc a) (pos b) = Ordering.lt
int_cmp (negsuc a) (negsuc b) = compare b a

-- The cast to the unsigned type of the same width (`as u64`, `as u16`), and back (`as i64`, `as i16`).
abbrev pub to_unsigned : ℕ → ℤ → ℕ
to_unsigned k (pos n) = n
to_unsigned k (negsuc n) = 2 * 2 ^ k - 1 - n

abbrev pub to_signed : ℕ → ℕ → ℤ
to_signed k u = if ltb u (2 ^ k) then pos u else negsuc (2 * 2 ^ k - 1 - u)

pub to_signed-unsigned : (k : ℕ) (z : ℤ) → IsSigned k z → to_signed k (to_unsigned k z) ≡ z
to_signed-unsigned k (pos n) h = ground arith
to_signed-unsigned k (negsuc n) h = ground arith

pub to_unsigned-signed : (k u : ℕ) → u < 2 * 2 ^ k → to_unsigned k (to_signed k u) ≡ u
to_unsigned-signed k u h = ground arith

pub to_signed-IsSigned : (k u : ℕ) → u < 2 * 2 ^ k → IsSigned k (to_signed k u)
to_signed-IsSigned k u h = ground arith

pub to_unsigned-lt : (k : ℕ) (z : ℤ) → IsSigned k z → to_unsigned k z < 2 * 2 ^ k
to_unsigned-lt k (pos n) h = omega arith
to_unsigned-lt k (negsuc n) h = omega arith

-- The distance of a signed value from the least one: what flipping the sign bit computes.
abbrev pub biased : ℕ → ℤ → ℕ
biased k (pos n) = n + 2 ^ k
biased k (negsuc n) = 2 ^ k - 1 - n

pub flip-biased : (k : ℕ) (z : ℤ) → IsSigned k z → bit_xor (to_unsigned k z) (2 ^ k) ≡ biased k z
flip-biased k (pos n) h = xor_set k n h
flip-biased k (negsuc n) h =
    let split : 2 * 2 ^ k - 1 - n ≡ 2 ^ k - 1 - n + 2 ^ k = omega arith in
    rw split (xor_clear k (2 ^ k - 1 - n) (omega arith))

pub biased-lt : (k : ℕ) (z : ℤ) → IsSigned k z → biased k z < 2 * 2 ^ k
biased-lt k (pos n) h = omega arith
biased-lt k (negsuc n) h = omega arith

pub compare-biased :
    (k : ℕ) (a b : ℤ)
    → IsSigned k a
    → IsSigned k b
    → compare (biased k a) (biased k b) ≡ int_cmp a b
compare-biased k (pos a) (pos b) ha hb = ground arith
compare-biased k (pos a) (negsuc b) ha hb = ground arith
compare-biased k (negsuc a) (pos b) ha hb = ground arith
compare-biased k (negsuc a) (negsuc b) ha hb = ground arith

-- The upper half of a word is the lower half with the top bit set.
top_half : (k u : ℕ) → 2 ^ k ≤ u → u ≡ u - 2 ^ k + 2 ^ k
top_half k u h = omega arith

pub xor_top : (k u : ℕ) → 2 ^ k ≤ u → u < 2 * 2 ^ k → bit_xor u (2 ^ k) ≡ u - 2 ^ k
xor_top k u lo hi =
    subst (λ t. bit_xor t (2 ^ k) ≡ u - 2 ^ k) (sym (top_half k u lo))
      (xor_clear k (u - 2 ^ k) (omega arith))

pub xor-xor : (k u : ℕ) → u < 2 * 2 ^ k → bit_xor (bit_xor u (2 ^ k)) (2 ^ k) ≡ u
xor-xor k u h = elim (Bool-cases (ltb u (2 ^ k))) [
  | inl low ↦ rw (xor_set k u (ltb→lt _ _ low)) (xor_clear k u (ltb→lt _ _ low))
  | inr high ↦
      rw (xor_top k u (ltb→ge _ _ high) h)
        (xor_set k (u - 2 ^ k) (omega arith) ∙ sym (top_half k u (ltb→ge _ _ high)))
]

pub xor-lt : (k u : ℕ) → u < 2 * 2 ^ k → bit_xor u (2 ^ k) < 2 * 2 ^ k
xor-lt k u h = elim (Bool-cases (ltb u (2 ^ k))) [
  | inl low ↦ omega (arith, xor_set k u (ltb→lt _ _ low), ltb→lt _ _ low)
  | inr high ↦ omega (arith, xor_top k u (ltb→ge _ _ high) h)
]
