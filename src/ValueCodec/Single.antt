-- ===== src/ValueCodec/Single.antt =====
-- The single precision conversions of cbor.rs: what is written as an `f32` is exact.
pub mod Through
use acetone.Prelude.{
  ℕ, ◌+◌, ◌-◌, ◌*◌, ◌/◌, ◌%◌, ◌^◌, ◌≤◌, ◌<◌, ◌≡◌, ◌≢◌, refl, sym, ◌∙◌, arith, ltb, leb, ◌==◌,
  by_test, leb→le, leb→gt, ==_iff, true, false, some, ◌&&◌, ◌||◌, Bool, subst, ltb→lt, le→leb,
  gt→leb, ge→ltb,
}
use native.Mathlib.Nat.{mul-div_cancel, mul-mod_left, div-mul-le_self}
use acetone.Model.{is_nan}
use acetone.ValueCodec.Floats.{
  scaled, infinity, round_off, narrow_magnitude, narrow, widen_magnitude, widen, f32_from_f64_exact,
}
use acetone.ValueCodec.Scaled.{shift_up-places, place_of}
use acetone.Prelude.Bits.{pow2_positive}
use acetone.ValueCodec.Half.{double_of, fields, finite, infinite, differ_test}
use acetone.ValueCodec.Scaled.{place_above, times_mono}
use acetone.Prelude.Bits.{pow2_mono}

unfoldable pub is_single_nan : ℕ → Bool
is_single_nan y = ltb 0x7f80_0000 (y % 2 ^ 31)

abbrev single_of : ℕ → ℕ → ℕ → ℕ
single_of s e f = s * 2 ^ 31 + (e * 2 ^ 23 + f)

single_fields :
    (s e f : ℕ)
    → s < 2
    → e < 2 ^ 8
    → f < 2 ^ 23
    → (single_of s e f / 2 ^ 31 % 2 ≡ s)
      × (single_of s e f % 2 ^ 31 ≡ e * 2 ^ 23 + f)
      × ((e * 2 ^ 23 + f) / 2 ^ 23 ≡ e)
      × ((e * 2 ^ 23 + f) % 2 ^ 23 ≡ f)
single_fields s e f hs he hf = (omega arith, omega arith, omega arith, omega arith)

-- A magnitude that is a multiple of the unit rounds to the quotient.
round_off_exact : (q s : ℕ) → round_off (q * 2 ^ s) s ≡ q
unfolding round_off
round_off_exact q s =
    let positive = pow2_positive s in
    let positive' = pow2_positive (s - 1) in
    let back : q * 2 ^ s / 2 ^ s ≡ q = mul-div_cancel q (omega arith) in
    rw
      (
        back,
        mul-mod_left q (2 ^ s),
        ge→ltb (2 ^ (s - 1)) 0 (omega arith),
        differ_test 0 (2 ^ (s - 1)) (λ e. omega arith),
      )
      refl

double_parts :
    (e f : ℕ) → f < 2 ^ 52 → ((e * 2 ^ 52 + f) / 2 ^ 52 ≡ e) × ((e * 2 ^ 52 + f) % 2 ^ 52 ≡ f)
double_parts e f hf = (omega arith, omega arith)

narrow_double :
    (s e f : ℕ)
    → s < 2
    → e < 2 ^ 11
    → f < 2 ^ 52
    → narrow (double_of s e f) ≡ s * 2 ^ 31 + narrow_magnitude (e * 2 ^ 52 + f)
unfolding narrow
narrow_double s e f hs he hf =
    let (sign, exp, frac, magnitude) = fields s e f hs he hf in rw (sign, magnitude) refl

-- What a single that is no NaN comes to: a double that is rounded to it.
abbrev pub IsSingle : ℕ → ℕ → Type 0
IsSingle y x = (narrow x ≡ y) × ((is_nan x ≡ false) × (x < 2 ^ 64))

widen_single :
    (s e f : ℕ)
    → s < 2
    → e < 2 ^ 8
    → f < 2 ^ 23
    → widen (single_of s e f) ≡ s * 2 ^ 63 + widen_magnitude (e * 2 ^ 23 + f)
unfolding widen
widen_single s e f hs he hf =
    let (sign, magnitude, _, _) = single_fields s e f hs he hf in rw (sign, magnitude) refl

normal_magnitude :
    (e f : ℕ)
    → 1 ≤ e
    → e ≤ 254
    → f < 2 ^ 23
    → (widen_magnitude (e * 2 ^ 23 + f) ≡ (e + 896) * 2 ^ 52 + f * 2 ^ 29)
      × (narrow_magnitude ((e + 896) * 2 ^ 52 + f * 2 ^ 29) ≡ e * 2 ^ 23 + f)
unfolding widen_magnitude narrow_magnitude
normal_magnitude e f lo hi hf =
    let (_, _, exp, frac) = single_fields 0 e f (omega arith) (omega arith) hf in
    let (exp', frac') = double_parts (e + 896) (f * 2 ^ 29) (omega arith) in
    let shifted : (e + 896) * 2 ^ 52 + f * 2 ^ 29 - 896 * 2 ^ 52 ≡ (e * 2 ^ 23 + f) * 2 ^ 29 =
      omega arith in
    (
      rw (exp, frac, differ_test e 255 (λ z. omega arith), differ_test e 0 (λ z. omega arith)) refl,
      rw
          (
            exp',
            frac',
            differ_test (e + 896) 2047 (λ z. omega arith),
            gt→leb 1151 (e + 896) (omega arith),
            le→leb 897 (e + 896) (omega arith),
            shifted,
          )
          (round_off_exact (e * 2 ^ 23 + f) 29),
    )

small_magnitude :
    (f j : ℕ)
    → 1 ≤ f
    → f < 2 ^ 23
    → 29 < j
    → j ≤ 52
    → 2 ^ 52 ≤ f * 2 ^ j
    → f * 2 ^ j < 2 ^ 53
    → (widen_magnitude f ≡ (926 - j) * 2 ^ 52 + (f * 2 ^ j - 2 ^ 52))
      × (narrow_magnitude ((926 - j) * 2 ^ 52 + (f * 2 ^ j - 2 ^ 52)) ≡ f)
unfolding widen_magnitude narrow_magnitude scaled
small_magnitude f j some_bits hf above h lo hi =
    let exp : f / 2 ^ 23 ≡ 0 = omega arith in
    let frac : f % 2 ^ 23 ≡ f = omega arith in
    let (exp', frac') = double_parts (926 - j) (f * 2 ^ j - 2 ^ 52) (omega arith) in
    let place : 926 - (926 - j) ≡ j = omega arith in
    let shifted : 2 ^ 52 + (f * 2 ^ j - 2 ^ 52) ≡ f * 2 ^ j = omega arith in
    (
      rw (exp, frac, differ_test f 0 (λ z. omega arith), shift_up-places 52 j 926 f h lo hi) refl,
      rw
          (
            exp',
            frac',
            differ_test (926 - j) 2047 (λ z. omega arith),
            gt→leb 1151 (926 - j) (omega arith),
            gt→leb 897 (926 - j) (omega arith),
            differ_test (926 - j) 0 (λ z. omega arith),
            place,
            shifted,
          )
          (round_off_exact f j),
    )

nothing_magnitude : (widen_magnitude 0 ≡ 0) × (narrow_magnitude 0 ≡ 0)
unfolding widen_magnitude narrow_magnitude scaled
nothing_magnitude = (refl, refl)

top_magnitude :
    (widen_magnitude (255 * 2 ^ 23) ≡ infinity) × (narrow_magnitude infinity ≡ 255 * 2 ^ 23)
unfolding widen_magnitude narrow_magnitude
top_magnitude = (refl, refl)

of_fields-IsSingle :
    (s e f : ℕ)
    → s < 2
    → e < 2 ^ 8
    → f < 2 ^ 23
    → ltb 0x7f80_0000 (e * 2 ^ 23 + f) ≡ false
    → IsSingle (single_of s e f) (widen (single_of s e f))
of_fields-IsSingle s e f hs he hf number = rw (widen_single s e f hs he hf) (
    by_test (e == 0)
      (λ low.
        by_test (f == 0)
          (λ none.
            rw ((==_iff e 0).0 low, (==_iff f 0).0 none, nothing_magnitude.0)
              (
                narrow_double s 0 0 hs (omega arith) (omega arith) ∙ rw nothing_magnitude.1 refl,
                finite s 0 0 hs (omega arith) (omega arith),
              ))
          (λ bits.
            let positive : 1 ≤ f = ground arith in
            let (j, h, lo, hi) = place_of 52 f (omega arith) (omega arith) in
            let above = place_above f j (2 ^ 23) 29 hf (omega arith) lo in
            let (up, down) = small_magnitude f j positive hf above h lo hi in
            let plain : 0 * 2 ^ 23 + f ≡ f = omega arith in
            rw ((==_iff e 0).0 low, plain, up)
              (
                narrow_double s (926 - j) (f * 2 ^ j - 2 ^ 52) hs (omega arith) (omega arith)
                    ∙ rw down refl,
                finite s (926 - j) (f * 2 ^ j - 2 ^ 52) hs (omega arith) (omega arith),
              )))
      (λ big.
        by_test (e == 255)
          (λ top.
            let empty : f ≡ 0 = ground arith in
            rw ((==_iff e 255).0 top, empty, top_magnitude.0)
              (
                narrow_double s 2047 0 hs (omega arith) (omega arith) ∙ rw top_magnitude.1 refl,
                infinite s hs,
              ))
          (λ normal.
            let lo : 1 ≤ e = ground arith in
            let hi : e ≤ 254 = ground arith in
            let (up, down) = normal_magnitude e f lo hi hf in
            rw up (
              narrow_double s (e + 896) (f * 2 ^ 29) hs (omega arith) (omega arith) ∙ rw down refl,
              finite s (e + 896) (f * 2 ^ 29) hs (omega arith) (omega arith),
            ))))

single_split : (y : ℕ) → y < 2 ^ 32 → y ≡ single_of (y / 2 ^ 31) (y % 2 ^ 31 / 2 ^ 23) (y % 2 ^ 23)
single_split y h = omega arith

-- Every single but a NaN comes to a double that is rounded back to it.
pub widen-IsSingle : (y : ℕ) → y < 2 ^ 32 → is_single_nan y ≡ false → IsSingle y (widen y)
unfolding is_single_nan
widen-IsSingle y h number =
    subst (λ t. IsSingle t (widen t)) (sym (single_split y h))
      (of_fields-IsSingle (y / 2 ^ 31) (y % 2 ^ 31 / 2 ^ 23) (y % 2 ^ 23) (omega arith)
        (omega arith) (omega arith) (ground arith))
