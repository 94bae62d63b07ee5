-- ===== src/Prelude/Bits.antt =====
-- `^`, `&` and `|` with one high bit, as arithmetic, at every width.
use Prim.Native.Nat.{ℕ, zero, suc, ◌+◌, ◌*◌, ◌/◌, ◌%◌, ◌^◌, ◌≤◌, ◌<◌, min, max}
use Prim.Native.Nat.{bit_and, bit_or, bit_xor, digits, bitwise, differ}
use Prim.Native.Nat.{bit_and-bitwise, bit_or-bitwise, bit_xor-bitwise}
use mathlib.Core.Path.{◌≡◌, refl, sym, ap, ◌∙◌}
use native.Mathlib.Omega.{arith}
use native.Mathlib.Nat.{pow-suc}

-- The digit recursion of the library, for any digit operation: fuel above the first number is all
-- the same, so one step may be read off with no fuel in sight.
module _ (tail : ℕ → ℕ) (digit : ℕ → ℕ → ℕ) where
  digits-zero : (fuel y : ℕ) → digits tail digit fuel 0 y ≡ tail y
  digits-zero zero y = refl
  digits-zero (suc fuel) y = refl

  digits_same :
      (fuel fuel' x y : ℕ)
      → x ≤ fuel
      → x ≤ fuel'
      → digits tail digit fuel x y ≡ digits tail digit fuel' x y
  digits_same fuel fuel' zero y h h' = digits-zero fuel y ∙ sym (digits-zero fuel' y)
  digits_same zero fuel' (suc x) y h h' = absurd (omega arith)
  digits_same (suc fuel) zero (suc x) y h h' = absurd (omega arith)
  digits_same (suc fuel) (suc fuel') (suc x) y h h' =
      let half : suc x / 2 ≤ fuel = omega arith in
      rw (digits_same fuel fuel' (suc x / 2) (y / 2) half (omega arith))

  digit_step :
      (x y : ℕ)
      → tail y ≡ tail (y / 2) * 2 + digit 0 (y % 2)
      → bitwise tail digit x y ≡ bitwise tail digit (x / 2) (y / 2) * 2 + digit (x % 2) (y % 2)
  digit_step zero y end = end
  digit_step (suc x) y end =
      ap (λ (t : ℕ). t * 2 + digit (suc x % 2) (y % 2))
        (digits_same x (suc x / 2) (suc x / 2) (y / 2) (omega arith) (omega arith))

bit_xor_step : (x y : ℕ) → bit_xor x y ≡ bit_xor (x / 2) (y / 2) * 2 + differ (x % 2) (y % 2)
bit_xor_step x y = simp (bit_xor-bitwise) (digit_step (λ t. t) differ x y (omega arith))

bit_or_step : (x y : ℕ) → bit_or x y ≡ bit_or (x / 2) (y / 2) * 2 + max (x % 2) (y % 2)
bit_or_step x y = simp (bit_or-bitwise) (digit_step (λ t. t) max x y (omega arith))

bit_and_step : (x y : ℕ) → bit_and x y ≡ bit_and (x / 2) (y / 2) * 2 + min (x % 2) (y % 2)
bit_and_step x y = simp (bit_and-bitwise) (digit_step (λ _. 0) min x y (omega arith))

double_pow : (k : ℕ) → 2 ^ suc k ≡ 2 * 2 ^ k
double_pow k = omega (arith, pow-suc 2 k)

half_pow : (k : ℕ) → 2 ^ suc k / 2 ≡ 2 ^ k
half_pow k = omega (arith, double_pow k)

even_pow : (k : ℕ) → 2 ^ suc k % 2 ≡ 0
even_pow k = omega (arith, double_pow k)

half_add : (k x : ℕ) → (x + 2 ^ suc k) / 2 ≡ x / 2 + 2 ^ k
half_add k x = omega (arith, double_pow k)

parity_add : (k x : ℕ) → (x + 2 ^ suc k) % 2 ≡ x % 2
parity_add k x = omega (arith, double_pow k)

differ-zero : (a : ℕ) → differ a 0 ≡ a
differ-zero zero = refl
differ-zero (suc a) = refl

-- `x ^ (1 << k)` sets the bit of a number below it, and clears it where it is set.
pub xor_set : (k x : ℕ) → x < 2 ^ k → bit_xor x (2 ^ k) ≡ x + 2 ^ k
xor_set zero zero h = refl
xor_set zero (suc x) h = absurd (omega arith)
xor_set (suc k) x h =
    bit_xor_step x (2 ^ suc k)
    ∙ rw (half_pow, even_pow, differ-zero, xor_set k (x / 2) (omega (arith, double_pow k)))
        (omega (arith, double_pow k))

pub xor_clear : (k x : ℕ) → x < 2 ^ k → bit_xor (x + 2 ^ k) (2 ^ k) ≡ x
xor_clear zero zero h = refl
xor_clear zero (suc x) h = absurd (omega arith)
xor_clear (suc k) x h =
    bit_xor_step (x + 2 ^ suc k) (2 ^ suc k)
    ∙ rw (half_add, parity_add)
        (rw (half_pow, even_pow, differ-zero, xor_clear k (x / 2) (omega (arith, double_pow k)))
          (omega arith))

-- `x | (1 << k)` sets the bit, and `x & (1 << k)` reads it.
pub or_set : (k x : ℕ) → x < 2 ^ k → bit_or x (2 ^ k) ≡ x + 2 ^ k
or_set zero zero h = refl
or_set zero (suc x) h = absurd (omega arith)
or_set (suc k) x h =
    bit_or_step x (2 ^ suc k)
    ∙ rw (half_pow, even_pow, or_set k (x / 2) (omega (arith, double_pow k)))
        (omega (arith, double_pow k))

pub and_below : (k x : ℕ) → x < 2 ^ k → bit_and x (2 ^ k) ≡ 0
and_below zero zero h = refl
and_below zero (suc x) h = absurd (omega arith)
and_below (suc k) x h =
    bit_and_step x (2 ^ suc k)
    ∙ rw (half_pow, even_pow, and_below k (x / 2) (omega (arith, double_pow k))) (omega arith)

pub and_above : (k x : ℕ) → x < 2 ^ k → bit_and (x + 2 ^ k) (2 ^ k) ≡ 2 ^ k
and_above zero zero h = refl
and_above zero (suc x) h = absurd (omega arith)
and_above (suc k) x h =
    bit_and_step (x + 2 ^ suc k) (2 ^ suc k)
    ∙ rw (half_add, parity_add)
        (rw (half_pow, even_pow, and_above k (x / 2) (omega (arith, double_pow k)))
          (omega (arith, double_pow k)))

bit_or_zero : (fuel x : ℕ) → x ≤ fuel → bit_or x 0 ≡ x
bit_or_zero fuel zero h = refl
bit_or_zero zero (suc x) h = absurd (omega arith)
bit_or_zero (suc fuel) (suc x) h =
    bit_or_step (suc x) 0 ∙ rw (bit_or_zero fuel (suc x / 2) (omega arith)) (omega arith)

bit_and_zero : (fuel x : ℕ) → x ≤ fuel → bit_and x 0 ≡ 0
bit_and_zero fuel zero h = refl
bit_and_zero zero (suc x) h = absurd (omega arith)
bit_and_zero (suc fuel) (suc x) h =
    bit_and_step (suc x) 0 ∙ rw (bit_and_zero fuel (suc x / 2) (omega arith)) (omega arith)

twice : (m k : ℕ) → m * 2 ^ suc k ≡ 2 * (m * 2 ^ k)
twice m k = rw (double_pow k) (grind arith)

-- Bits above and below a place do not meet.
pub or_disjoint : (k m v : ℕ) → v < 2 ^ k → bit_or (m * 2 ^ k) v ≡ m * 2 ^ k + v
or_disjoint zero m zero h = bit_or_zero (m * 1) (m * 1) (omega arith) ∙ omega arith
or_disjoint zero m (suc v) h = absurd (omega arith)
or_disjoint (suc k) m v h =
    let half : m * 2 ^ suc k / 2 ≡ m * 2 ^ k = omega (arith, twice m k) in
    let even : m * 2 ^ suc k % 2 ≡ 0 = omega (arith, twice m k) in
    bit_or_step (m * 2 ^ suc k) v
    ∙ rw (half, even, or_disjoint k m (v / 2) (omega (arith, double_pow k)))
        (omega (arith, twice m k))

-- The five low bits, one place after the other.
and_1 : (x : ℕ) → bit_and x 1 ≡ x % 2
and_1 x = bit_and_step x 1 ∙ rw (bit_and_zero (x / 2) (x / 2) (omega arith)) (omega arith)

and_3 : (x : ℕ) → bit_and x 3 ≡ x % 4
and_3 x = bit_and_step x 3 ∙ rw (and_1 (x / 2)) (omega arith)

and_7 : (x : ℕ) → bit_and x 7 ≡ x % 8
and_7 x = bit_and_step x 7 ∙ rw (and_3 (x / 2)) (omega arith)

and_15 : (x : ℕ) → bit_and x 15 ≡ x % 16
and_15 x = bit_and_step x 15 ∙ rw (and_7 (x / 2)) (omega arith)

pub and_31 : (x : ℕ) → bit_and x 31 ≡ x % 32
and_31 x = bit_and_step x 31 ∙ rw (and_15 (x / 2)) (omega arith)

-- Powers of two.
pub pow2_positive : (j : ℕ) → 1 ≤ 2 ^ j
pow2_positive zero = omega arith
pow2_positive (suc j) = omega (arith, pow-suc 2 j, pow2_positive j)

pub pow2_mono : (j k : ℕ) → j ≤ k → 2 ^ j ≤ 2 ^ k
pow2_mono zero k h = pow2_positive k
pow2_mono (suc j) zero h = absurd (omega arith)
pow2_mono (suc j) (suc k) h = omega (arith, pow-suc 2 j, pow-suc 2 k, pow2_mono j k (omega arith))
