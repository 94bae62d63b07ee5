-- ===== src/ValueCodec/Single/Through.antt =====
-- A double goes through a single unchanged exactly if it is one.
use acetone.Prelude.{
  ℕ, ◌+◌, ◌-◌, ◌*◌, ◌/◌, ◌%◌, ◌^◌, ◌≤◌, ◌<◌, ◌≡◌, ◌≢◌, refl, arith, ltb, leb, ◌==◌, by_test, leb→le,
  leb→gt, ==_iff, true, false, some, ◌&&◌, ◌||◌, subst, ltb→lt,
}
use native.Mathlib.Nat.{div-mul-le_self}
use acetone.Model.{is_nan}
use acetone.ValueCodec.Floats.{
  round_off, narrow_magnitude, narrow, widen_magnitude, widen, f32_from_f64_exact,
}
use acetone.ValueCodec.Half.{differ_test}
use acetone.ValueCodec.Scaled.{times_mono}
use acetone.Prelude.Bits.{pow2_mono}
use acetone.ValueCodec.Single.{is_single_nan, widen-IsSingle}

-- A single NaN becomes a double NaN.
pub is_nan-widen : (y : ℕ) → y < 2 ^ 32 → is_single_nan y ≡ true → is_nan (widen y) ≡ true
unfolding is_single_nan widen widen_magnitude is_nan
is_nan-widen y h nan =
    let exp : y % 2 ^ 31 / 2 ^ 23 ≡ 255 = omega (arith, ltb→lt _ _ nan) in
    let frac : y % 2 ^ 31 % 2 ^ 23 ≢ 0 = omega (arith, ltb→lt _ _ nan) in
    rw (exp, differ_test (y % 2 ^ 31 % 2 ^ 23) 0 frac) (ground arith)

round_off-le : (m s : ℕ) → round_off m s ≤ m / 2 ^ s + 1
unfolding round_off
round_off-le m s =
    by_test (ltb (2 ^ (s - 1)) (m % 2 ^ s) || ((m % 2 ^ s == 2 ^ (s - 1)) && (m / 2 ^ s % 2 == 1)))
      (λ up. rw up (omega arith)) (λ down. rw down (omega arith))

small_quotient : (n t : ℕ) → n < 2 ^ 53 → 30 ≤ t → n / 2 ^ t < 2 ^ 23
small_quotient n t h above = omega (
  arith,
  div-mul-le_self n (2 ^ t),
  times_mono (n / 2 ^ t) (2 ^ 30) (2 ^ t) (pow2_mono 30 t above),
)

narrow_magnitude-lt : (m : ℕ) → m < 2 ^ 63 → narrow_magnitude m < 2 ^ 31
unfolding narrow_magnitude
narrow_magnitude-lt m h =
    by_test (m / 2 ^ 52 == 2047)
      (λ a. by_test (m % 2 ^ 52 == 0) (λ b. rw (a, b) (omega arith)) (λ b. rw (a, b) (omega arith)))
      (λ a.
        by_test (leb 1151 (m / 2 ^ 52)) (λ b. rw (a, b) (omega arith))
          (λ b.
            by_test (leb 897 (m / 2 ^ 52))
              (λ c.
                rw (a, b, c)
                  (omega (arith, round_off-le (m - 896 * 2 ^ 52) 29, leb→gt _ _ b, leb→le _ _ c)))
              (λ c.
                by_test (m / 2 ^ 52 == 0) (λ d. rw (a, b, c, d) (omega arith))
                  (λ d.
                    rw (a, b, c, d)
                      (omega (
                        arith,
                        round_off-le (2 ^ 52 + m % 2 ^ 52) (926 - m / 2 ^ 52),
                        small_quotient (2 ^ 52 + m % 2 ^ 52) (926 - m / 2 ^ 52) (omega arith)
                            (omega (arith, leb→gt _ _ c)),
                      ))))))

pub narrow-lt : (x : ℕ) → narrow x < 2 ^ 32
unfolding narrow
narrow-lt x = omega (arith, narrow_magnitude-lt (x % 2 ^ 63) (omega arith))

-- A double that is no NaN, and that goes through a single unchanged, goes through a proper one.
pub f32_from_f64_exact_ok :
    (x y : ℕ)
    → is_nan x ≡ false
    → f32_from_f64_exact x ≡ some y
    → (y < 2 ^ 32) × (is_single_nan y ≡ false) × (widen y ≡ x)
unfolding f32_from_f64_exact
f32_from_f64_exact_ok x y number found =
    by_test (widen (narrow x) == x)
      (λ same.
        let back : widen (narrow x) ≡ x = (==_iff _ x).0 same in
        let here : narrow x ≡ y = cc (rw same at found) in
        subst (λ t. (t < 2 ^ 32) × (is_single_nan t ≡ false) × (widen t ≡ x)) here
          (
            narrow-lt x,
            by_test (is_single_nan (narrow x))
                (λ nan. cc (number, back, is_nan-widen (narrow x) (narrow-lt x) nan)) (λ e. e),
            back,
          ))
      (λ other. cc (rw other at found))

-- The double that a single comes to goes through that single.
pub f32_from_f64_exact-widen :
    (y : ℕ) → y < 2 ^ 32 → is_single_nan y ≡ false → f32_from_f64_exact (widen y) ≡ some y
unfolding f32_from_f64_exact
f32_from_f64_exact-widen y h number =
    let (back, _) = widen-IsSingle y h number in
    let same : (widen y == widen y) ≡ true = (==_iff _ _).1 refl in rw (back, same) refl
