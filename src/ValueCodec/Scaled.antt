-- ===== src/ValueCodec/Scaled.antt =====
-- Shifting a magnitude up to bit 52: what the loop comes to.
use acetone.Prelude.Bits.{pow2_positive, pow2_mono}
use acetone.Prelude.{
  ℕ, zero, suc, ◌+◌, ◌-◌, ◌*◌, ◌^◌, ◌≤◌, ◌<◌, ◌≡◌, ◌∙◌, arith, leb, by_test, leb→le, leb→gt, ltb,
  ltb→lt, ltb→ge,
}
use native.Mathlib.Nat.{pow-suc}
use acetone.ValueCodec.Floats.{shift_up}

double : (m j : ℕ) → m * 2 ^ suc j ≡ 2 * m * 2 ^ j
double m j = rw (pow-suc 2 j) (grind arith)

grows : (m p : ℕ) → 1 ≤ p → m ≤ m * p
grows m p h = grind arith

twice : (m j : ℕ) → 2 * m * 2 ^ j ≡ 2 * (m * 2 ^ j)
twice m j = grind arith

-- Where m · 2 ^ j has its top bit at 52, the loop shifts j times.
pub shift_up-places :
    (fuel j e m : ℕ)
    → j ≤ fuel
    → 2 ^ 52 ≤ m * 2 ^ j
    → m * 2 ^ j < 2 ^ 53
    → shift_up fuel e m ≡ (e - j) * 2 ^ 52 + (m * 2 ^ j - 2 ^ 52)
unfolding shift_up
shift_up-places zero zero e m h lo hi = omega arith
shift_up-places zero (suc j) e m h lo hi = absurd (omega arith)
shift_up-places (suc fuel) zero e m h lo hi =
    by_test (leb (2 ^ 52) m) (λ top. rw top (omega arith))
      (λ low. absurd (omega (arith, leb→gt _ _ low)))
shift_up-places (suc fuel) (suc j) e m h lo hi =
    by_test (leb (2 ^ 52) m)
      (λ top. absurd (
        omega (
          arith,
          leb→le _ _ top,
          pow-suc 2 j,
          double m j,
          twice m j,
          grows m (2 ^ j) (pow2_positive j),
        )))
      (λ low. rw low (
        shift_up-places fuel j (e - 1) (2 * m) (omega arith) (rw (← double m j) lo)
          (rw (← double m j) hi)
        ∙ rw (double m j) (omega arith)))

-- Every magnitude in reach has its place.
pub place_of :
    (k m : ℕ)
    → 2 ^ 52 ≤ m * 2 ^ k
    → m < 2 ^ 53
    → (j : ℕ) × (j ≤ k) × (2 ^ 52 ≤ m * 2 ^ j) × (m * 2 ^ j < 2 ^ 53)
place_of zero m lo hi = (0, omega arith, lo, omega arith)
place_of (suc k) m lo hi =
    by_test (leb (2 ^ 52) m) (λ top. (0, omega arith, omega (arith, leb→le _ _ top), omega arith))
      (λ low.
        let (j, h, lo', hi') =
          place_of k (2 * m) (rw (double m k) at lo) (omega (arith, leb→gt _ _ low)) in
        (suc j, omega arith, rw (double m j) lo', rw (double m j) hi'))

pub times_mono : (m p q : ℕ) → p ≤ q → m * p ≤ m * q
times_mono m p q h = grind arith

pub times_below : (m n p : ℕ) → m < n → 1 ≤ p → m * p < n * p
times_below m n p h k = grind arith

-- A number below `bound` has its place above `least`, where both together reach bit 52.
pub place_above :
    (m j bound least : ℕ) → m < bound → bound * 2 ^ least ≤ 2 ^ 52 → 2 ^ 52 ≤ m * 2 ^ j → least < j
place_above m j bound least small reach lo =
    by_test (ltb least j) (λ above. ltb→lt _ _ above)
      (λ below. absurd (
        omega (
          arith,
          times_mono m (2 ^ j) (2 ^ least) (pow2_mono j least (ltb→ge _ _ below)),
          times_below m bound (2 ^ least) small (pow2_positive least),
        )))
