-- ===== src/ValueCodec/Half.antt =====
-- The half precision conversions of cbor.rs are inverse to each other.
pub mod Back
use acetone.ValueCodec.Scaled.{times_mono, times_below, place_above}
use acetone.Prelude.Bits.{pow2_mono}
use acetone.Prelude.{
  ℕ, zero, suc, ◌+◌, ◌-◌, ◌*◌, ◌/◌, ◌%◌, ◌^◌, ◌≤◌, ◌<◌, ◌≡◌, refl, sym, ◌∙◌, arith, ltb, leb, ◌==◌,
  if◌then◌else◌, by_test, leb→le, leb→gt, ==_iff, true, false, Option, none, some, ◌&&◌, Bool, not,
  subst, ap, le→leb, gt→leb, ltb→lt, ltb→ge,
}
use native.Mathlib.Nat.{pow-suc, mul-div_cancel, mul-mod_left}
use acetone.Model.{is_zero, is_nan}
use acetone.ValueCodec.Floats.{
  scaled, infinity, canonical_nan_bits, f16_bits_to_f64, f16_from_f64_exact,
}
use acetone.ValueCodec.Scaled.{shift_up-places, place_of}
use acetone.Prelude.Bits.{pow2_positive}

-- A double by its sign, exponent and fraction.
abbrev pub double_of : ℕ → ℕ → ℕ → ℕ
double_of s e f = s * 2 ^ 63 + (e * 2 ^ 52 + f)

pub fields :
    (s e f : ℕ)
    → s < 2
    → e < 2 ^ 11
    → f < 2 ^ 52
    → (double_of s e f / 2 ^ 63 % 2 ≡ s)
      × (double_of s e f / 2 ^ 52 % 2 ^ 11 ≡ e)
      × (double_of s e f % 2 ^ 52 ≡ f)
      × (double_of s e f % 2 ^ 63 ≡ e * 2 ^ 52 + f)
fields s e f hs he hf = (omega arith, omega arith, omega arith, omega arith)

pub differ_test : (a b : ℕ) → (a ≡ b → ⊥) → (a == b) ≡ false
differ_test a b h = by_test (a == b) (λ same. absurd (h ((==_iff a b).0 same))) (λ e. e)

exact_normal :
    (s e f : ℕ)
    → s < 2
    → 1009 ≤ e
    → e ≤ 1038
    → f < 2 ^ 10
    → f16_from_f64_exact (double_of s e (f * 2 ^ 42)) ≡ some (s * 2 ^ 15 + (e - 1008) * 2 ^ 10 + f)
unfolding f16_from_f64_exact is_zero
exact_normal s e f hs lo hi hf =
    let (sign, exp, frac, magnitude) = fields s e (f * 2 ^ 42) hs (omega arith) (omega arith) in
    let whole : f * 2 ^ 42 % 2 ^ 42 ≡ 0 = omega arith in
    let top : f * 2 ^ 42 / 2 ^ 42 ≡ f = omega arith in
    rw
      (
        sign,
        exp,
        frac,
        magnitude,
        differ_test (e * 2 ^ 52 + f * 2 ^ 42) 0 (λ z. omega arith),
        differ_test (e * 2 ^ 52 + f * 2 ^ 42) infinity (λ z. omega arith),
        le→leb 1009 e lo,
        le→leb e 1038 hi,
        whole,
        top,
      )
      refl

exact_small :
    (s e f m : ℕ)
    → s < 2
    → 999 ≤ e
    → e ≤ 1008
    → f < 2 ^ 52
    → m * 2 ^ (1051 - e) ≡ 2 ^ 52 + f
    → f16_from_f64_exact (double_of s e f) ≡ some (s * 2 ^ 15 + m)
unfolding f16_from_f64_exact is_zero
exact_small s e f m hs lo hi hf shifted =
    let (sign, exp, frac, magnitude) = fields s e f hs (omega arith) hf in
    let whole : (2 ^ 52 + f) % 2 ^ (1051 - e) ≡ 0 =
      rw (← shifted) (mul-mod_left m (2 ^ (1051 - e))) in
    let top : (2 ^ 52 + f) / 2 ^ (1051 - e) ≡ m =
      rw (← shifted) (mul-div_cancel m (omega (arith, pow2_positive (1051 - e)))) in
    rw
      (
        sign,
        exp,
        frac,
        magnitude,
        differ_test (e * 2 ^ 52 + f) 0 (λ z. omega arith),
        differ_test (e * 2 ^ 52 + f) infinity (λ z. omega arith),
        gt→leb 1009 e (omega arith),
        le→leb 999 e lo,
        le→leb e 1008 hi,
        whole,
        top,
      )
      refl

-- The bit pattern of a half by its sign, exponent and fraction.
abbrev pub half_of : ℕ → ℕ → ℕ → ℕ
half_of s e f = s * 2 ^ 15 + (e * 2 ^ 10 + f)

pub half_fields :
    (s e f : ℕ)
    → s < 2
    → e < 2 ^ 5
    → f < 2 ^ 10
    → (half_of s e f / 2 ^ 15 % 2 ≡ s)
      × (half_of s e f / 2 ^ 10 % 2 ^ 5 ≡ e)
      × (half_of s e f % 2 ^ 10 ≡ f)
half_fields s e f hs he hf = (omega arith, omega arith, omega arith)

-- A normal half.
pub half_normal :
    (s e f : ℕ)
    → s < 2
    → 1 ≤ e
    → e ≤ 30
    → f < 2 ^ 10
    → f16_bits_to_f64 (half_of s e f) ≡ double_of s (e + 1008) (f * 2 ^ 42)
unfolding f16_bits_to_f64 scaled
half_normal s e f hs lo hi hf =
    let (sign, exp, frac) = half_fields s e f hs (omega arith) hf in
    rw
      (
        sign,
        exp,
        frac,
        differ_test e 0 (λ z. omega arith),
        differ_test e 31 (λ z. omega arith),
        differ_test (1024 + f) 0 (λ z. omega arith),
        shift_up-places 52 42 (e + 1050) (1024 + f) (omega arith) (omega arith) (omega arith),
      )
      (omega arith)

-- A half below the normal ones.
pub half_small :
    (s f j : ℕ)
    → s < 2
    → 1 ≤ f
    → f < 2 ^ 10
    → j ≤ 52
    → 2 ^ 52 ≤ f * 2 ^ j
    → f * 2 ^ j < 2 ^ 53
    → f16_bits_to_f64 (half_of s 0 f) ≡ double_of s (1051 - j) (f * 2 ^ j - 2 ^ 52)
unfolding f16_bits_to_f64 scaled
half_small s f j hs some_bits hf h lo hi =
    let (sign, exp, frac) = half_fields s 0 f hs (omega arith) hf in
    rw (sign, exp, frac, differ_test f 0 (λ z. omega arith), shift_up-places 52 j 1051 f h lo hi)
      refl

pub half_zero : (s : ℕ) → s < 2 → f16_bits_to_f64 (half_of s 0 0) ≡ double_of s 0 0
unfolding f16_bits_to_f64 scaled
half_zero s hs =
    let (sign, exp, frac) = half_fields s 0 0 hs (omega arith) (omega arith) in
    rw (sign, exp, frac) refl

pub half_infinite : (s : ℕ) → s < 2 → f16_bits_to_f64 (half_of s 31 0) ≡ double_of s 2047 0
unfolding f16_bits_to_f64
half_infinite s hs =
    let (sign, exp, frac) = half_fields s 31 0 hs (omega arith) (omega arith) in
    rw (sign, exp, frac) refl

exact_zero : (s : ℕ) → s < 2 → f16_from_f64_exact (double_of s 0 0) ≡ some (half_of s 0 0)
unfolding f16_from_f64_exact is_zero
exact_zero s hs =
    let (sign, exp, frac, magnitude) = fields s 0 0 hs (omega arith) (omega arith) in
    rw (sign, exp, magnitude) (ap some (omega arith))

exact_infinite : (s : ℕ) → s < 2 → f16_from_f64_exact (double_of s 2047 0) ≡ some (half_of s 31 0)
unfolding f16_from_f64_exact is_zero
exact_infinite s hs =
    let (sign, exp, frac, magnitude) = fields s 2047 0 hs (omega arith) (omega arith) in
    rw (sign, exp, magnitude) refl

-- A half is a NaN.
unfoldable pub is_half_nan : ℕ → Bool
is_half_nan bits = (bits / 2 ^ 10 % 2 ^ 5 == 31) && not (bits % 2 ^ 10 == 0)

-- What a half that is no NaN comes to: a double of the same sign, finite or infinite, that gives the
-- half back.
abbrev pub IsHalf : ℕ → ℕ → Type 0
IsHalf bits x = (f16_from_f64_exact x ≡ some bits) × ((is_nan x ≡ false) × (x < 2 ^ 64))

pub finite :
    (s e f : ℕ)
    → s < 2
    → e < 2047
    → f < 2 ^ 52
    → (is_nan (double_of s e f) ≡ false) × (double_of s e f < 2 ^ 64)
unfolding is_nan
finite s e f hs he hf = (ground arith, omega arith)

pub infinite :
    (s : ℕ) → s < 2 → (is_nan (double_of s 2047 0) ≡ false) × (double_of s 2047 0 < 2 ^ 64)
unfolding is_nan
infinite s hs = (ground arith, omega arith)

of_fields-IsHalf :
    (s e f : ℕ)
    → s < 2
    → e < 2 ^ 5
    → f < 2 ^ 10
    → ((e == 31) && not (f == 0)) ≡ false
    → IsHalf (half_of s e f) (f16_bits_to_f64 (half_of s e f))
of_fields-IsHalf s e f hs he hf number =
    by_test (e == 0)
      (λ small.
        by_test (f == 0)
          (λ zero_bits.
            rw ((==_iff e 0).0 small, (==_iff f 0).0 zero_bits)
              (rw (half_zero s hs) (exact_zero s hs, finite s 0 0 hs (omega arith) (omega arith))))
          (λ bits.
            let positive : 1 ≤ f = ground arith in
            let (j, h, lo, hi) = place_of 52 f (omega arith) (omega arith) in
            let above = place_above f j (2 ^ 10) 42 hf (omega arith) lo in
            let place : 1051 - (1051 - j) ≡ j = omega arith in
            rw ((==_iff e 0).0 small) (
              rw (half_small s f j hs positive hf h lo hi) (
                exact_small s (1051 - j) (f * 2 ^ j - 2 ^ 52) f hs (omega arith) (omega arith)
                      (omega arith) (rw place (omega arith))
                    ∙ ap some (omega arith),
                finite s (1051 - j) (f * 2 ^ j - 2 ^ 52) hs (omega arith) (omega arith),
              ))))
      (λ big.
        by_test (e == 31)
          (λ top.
            let empty : (f == 0) ≡ true = ground arith in
            rw ((==_iff e 31).0 top, (==_iff f 0).0 empty)
              (rw (half_infinite s hs) (exact_infinite s hs, infinite s hs)))
          (λ normal.
            let lo : 1 ≤ e = ground arith in
            let hi : e ≤ 30 = ground arith in
            rw (half_normal s e f hs lo hi hf) (
              exact_normal s (e + 1008) f hs (omega arith) (omega arith) hf ∙ ap some (omega arith),
              finite s (e + 1008) (f * 2 ^ 42) hs (omega arith) (omega arith),
            )))

half_split :
    (bits : ℕ)
    → bits < 2 ^ 16
    → bits ≡ half_of (bits / 2 ^ 15) (bits / 2 ^ 10 % 2 ^ 5) (bits % 2 ^ 10)
half_split bits h = omega arith

-- Every half but a NaN comes to a double that gives it back.
pub f16_bits_to_f64-IsHalf :
    (bits : ℕ) → bits < 2 ^ 16 → is_half_nan bits ≡ false → IsHalf bits (f16_bits_to_f64 bits)
unfolding is_half_nan
f16_bits_to_f64-IsHalf bits h number =
    subst (λ b. IsHalf b (f16_bits_to_f64 b)) (sym (half_split bits h))
      (of_fields-IsHalf (bits / 2 ^ 15) (bits / 2 ^ 10 % 2 ^ 5) (bits % 2 ^ 10) (omega arith)
        (omega arith) (omega arith) number)
