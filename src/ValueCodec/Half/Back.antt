-- ===== src/ValueCodec/Half/Back.antt =====
-- The half that a double is written as gives the double back.
use acetone.Prelude.{
  ℕ, ◌+◌, ◌-◌, ◌*◌, ◌/◌, ◌%◌, ◌^◌, ◌≤◌, ◌<◌, ◌≡◌, refl, sym, ◌∙◌, arith, ltb, leb, ◌==◌, by_test,
  leb→le, ==_iff, true, false, Option, none, some, ◌&&◌, Bool, not, subst, ltb→lt, ltb→ge,
}
use native.Mathlib.Nat.{mod-add-div'}
use acetone.Model.{is_zero}
use acetone.ValueCodec.Floats.{infinity, f16_bits_to_f64, f16_from_f64_exact}
use acetone.ValueCodec.Half.{
  fields, double_of, half_of, half_fields, half_normal, half_small, half_zero, half_infinite,
  is_half_nan,
}
use acetone.ValueCodec.Scaled.{times_mono}
use acetone.Prelude.Bits.{pow2_mono}

abbrev pub IsBack : ℕ → ℕ → Type 0
IsBack h x = (h < 2 ^ 16) × ((is_half_nan h ≡ false) × (f16_bits_to_f64 h ≡ x))

number_of :
    (s e f : ℕ)
    → s < 2
    → e < 2 ^ 5
    → f < 2 ^ 10
    → ((e == 31) && not (f == 0)) ≡ false
    → (half_of s e f < 2 ^ 16) × (is_half_nan (half_of s e f) ≡ false)
unfolding is_half_nan
number_of s e f hs he hf number =
    let (_, exp, frac) = half_fields s e f hs he hf in (omega arith, rw (exp, frac) number)

split : (x : ℕ) → x < 2 ^ 64 → x ≡ double_of (x / 2 ^ 63 % 2) (x / 2 ^ 52 % 2 ^ 11) (x % 2 ^ 52)
split x h = omega arith

normal-IsBack :
    (s e f : ℕ)
    → s < 2
    → 1009 ≤ e
    → e ≤ 1038
    → f < 2 ^ 52
    → f % 2 ^ 42 ≡ 0
    → IsBack (s * 2 ^ 15 + (e - 1008) * 2 ^ 10 + f / 2 ^ 42) (double_of s e f)
normal-IsBack s e f hs lo hi hf whole =
    let half : half_of s (e - 1008) (f / 2 ^ 42) ≡ s * 2 ^ 15 + (e - 1008) * 2 ^ 10 + f / 2 ^ 42 =
      omega arith in
    let (small, number) =
      number_of s (e - 1008) (f / 2 ^ 42) hs (omega arith) (omega arith) (ground arith) in
    subst (λ h. IsBack h (double_of s e f)) half
      (
        small,
        (
          number,
          half_normal s (e - 1008) (f / 2 ^ 42) hs (omega arith) (omega arith) (omega arith)
              ∙ omega arith,
        ),
      )

small-IsBack :
    (s e f m : ℕ)
    → s < 2
    → 999 ≤ e
    → e ≤ 1008
    → f < 2 ^ 52
    → m * 2 ^ (1051 - e) ≡ 2 ^ 52 + f
    → IsBack (s * 2 ^ 15 + m) (double_of s e f)
small-IsBack s e f m hs lo hi hf shifted =
    let bound : m < 2 ^ 10 =
      by_test (ltb m (2 ^ 10)) (λ low. ltb→lt _ _ low)
        (λ high. absurd (
          omega (
            arith,
            pow2_mono 43 (1051 - e) (omega arith),
            times_mono m (2 ^ 43) (2 ^ (1051 - e)) (pow2_mono 43 (1051 - e) (omega arith)),
            ltb→ge _ _ high,
          ))) in
    let positive : 1 ≤ m =
      by_test (m == 0) (λ none. absurd (omega (arith, rw ((==_iff m 0).0 none) at shifted)))
        (λ some. ground arith) in
    let (small, number) = number_of s 0 m hs (omega arith) bound (ground arith) in
    let half : half_of s 0 m ≡ s * 2 ^ 15 + m = omega arith in
    subst (λ h. IsBack h (double_of s e f)) half
      (
        small,
        (
          number,
          half_small s m (1051 - e) hs positive bound (omega arith) (omega arith) (omega arith)
              ∙ omega arith,
        ),
      )

zero-IsBack : (s e f : ℕ) → s < 2 → e * 2 ^ 52 + f ≡ 0 → IsBack (s * 2 ^ 15) (double_of s e f)
zero-IsBack s e f hs empty =
    let half : half_of s 0 0 ≡ s * 2 ^ 15 = omega arith in
    let (small, number) = number_of s 0 0 hs (omega arith) (omega arith) refl in
    subst (λ h. IsBack h (double_of s e f)) half (small, (number, half_zero s hs ∙ omega arith))

infinite-IsBack :
    (s e f : ℕ) → s < 2 → e * 2 ^ 52 + f ≡ infinity → IsBack (s * 2 ^ 15 + 0x7c00) (double_of s e f)
infinite-IsBack s e f hs full =
    let half : half_of s 31 0 ≡ s * 2 ^ 15 + 0x7c00 = omega arith in
    let (small, number) = number_of s 31 0 hs (omega arith) (omega arith) refl in
    subst (λ h. IsBack h (double_of s e f)) half (small, (number, half_infinite s hs ∙ omega arith))

some_same : {a b : ℕ} → some a ≡ some b → a ≡ b
some_same e = cc

nothing_found : {a : ℕ} → ◌≡◌ {A = Option ℕ} none (some a) → ⊥
nothing_found e = cc

both_true : (a b : Bool) → (a && b) ≡ true → (a ≡ true) × (b ≡ true)
both_true a b e = ground arith

fields-IsBack :
    (s e f h : ℕ)
    → s < 2
    → e < 2 ^ 11
    → f < 2 ^ 52
    → f16_from_f64_exact (double_of s e f) ≡ some h
    → IsBack h (double_of s e f)
unfolding f16_from_f64_exact is_zero
fields-IsBack s e f h hs he hf found =
    let (sign, exp, frac, magnitude) = fields s e f hs he hf in
    let run = rw (sign, exp, frac, magnitude) at found in
    by_test ((e * 2 ^ 52 + f) == 0)
      (λ zero.
        subst (λ t. IsBack t (double_of s e f)) (some_same (rw zero at run))
          (zero-IsBack s e f hs ((==_iff _ 0).0 zero)))
      (λ a.
        by_test ((e * 2 ^ 52 + f) == infinity)
          (λ top.
            subst (λ t. IsBack t (double_of s e f)) (some_same (rw (a, top) at run))
              (infinite-IsBack s e f hs ((==_iff _ infinity).0 top)))
          (λ b.
            by_test (leb 1009 e && leb e 1038)
              (λ normal.
                by_test (f % 2 ^ 42 == 0)
                  (λ whole.
                    let (lo, hi) = both_true _ _ normal in
                    subst (λ t. IsBack t (double_of s e f))
                      (some_same (rw (a, b, normal, whole) at run))
                      (normal-IsBack s e f hs (leb→le _ _ lo) (leb→le _ _ hi) hf
                        ((==_iff _ 0).0 whole)))
                  (λ part. absurd (nothing_found (rw (a, b, normal, part) at run))))
              (λ c.
                by_test (leb 999 e && leb e 1008)
                  (λ small.
                    by_test ((2 ^ 52 + f) % 2 ^ (1051 - e) == 0)
                      (λ whole.
                        let (lo, hi) = both_true _ _ small in
                        subst (λ t. IsBack t (double_of s e f))
                          (some_same (rw (a, b, c, small, whole) at run))
                          (small-IsBack s e f _ hs (leb→le _ _ lo) (leb→le _ _ hi) hf (
                            omega (
                              arith,
                              mod-add-div' (2 ^ 52 + f) (2 ^ (1051 - e)),
                              (==_iff _ 0).0 whole,
                            ))))
                      (λ part. absurd (nothing_found (rw (a, b, c, small, part) at run))))
                  (λ d. absurd (nothing_found (rw (a, b, c, d) at run))))))

-- The half that a double is written as is no NaN, and comes to that double.
pub f16_from_f64_exact-IsBack : (x h : ℕ) → x < 2 ^ 64 → f16_from_f64_exact x ≡ some h → IsBack h x
f16_from_f64_exact-IsBack x h bound found = subst (IsBack h) (sym (split x bound)) (
    fields-IsBack (x / 2 ^ 63 % 2) (x / 2 ^ 52 % 2 ^ 11) (x % 2 ^ 52) h (omega arith) (omega arith)
      (omega arith) (subst (λ t. f16_from_f64_exact t ≡ some h) (split x bound) found))
