-- ===== src/ValueCodec/FloatItems.antt =====
-- Floats, in the shortest form that holds each, read back.
use acetone.Prelude.{
  ℕ, ◌+◌, ◌*◌, ◌^◌, ◌<◌, ◌≡◌, refl, true, false, List, [], ◌∷◌, ◌++◌, arith, some, none,
  Option-cases, inl, inr,
}
use acetone.Prelude.{by_test, if◌then◌else◌}
use acetone.Prelude.Bytes.{be_bytes}
use acetone.Prelude.Result.{ok}
use acetone.Cbor.Heads.{read_be_u64-be_bytes}
use acetone.ValueCodec.Floats.{f16_from_f64_exact, f32_from_f64_exact, canonical_nan_bits}
use acetone.ValueCodec.Half.{is_half_nan}
use acetone.ValueCodec.Half.Back.{f16_from_f64_exact-IsBack}
use acetone.ValueCodec.Single.Through.{f32_from_f64_exact_ok}
use acetone.ValueCodec.Write.{write_float, write_half, write_single}
use acetone.ValueCodec.Read.{read_half, read_single, read_double, read_simple_or_float}
use acetone.Model.{is_nan}
use acetone.Model.{float}

-- How a float's item begins, and that the rest reads back.
abbrev pub FloatBack : ℕ → List ℕ → Type 0
FloatBack x written =
    (low : ℕ) × (body : List ℕ) × (written ≡ (7 * 32 + low) ∷ body)
    × (low < 32)
    × ((rest : List ℕ)
        → read_simple_or_float low (body ++ rest)
          ≡ ok (float (if is_nan x then canonical_nan_bits else x), rest))

nan-FloatBack : (x : ℕ) → is_nan x ≡ true → FloatBack x (write_float [] x)
unfolding write_float read_simple_or_float read_half is_half_nan
nan-FloatBack x nan = (
  25,
  be_bytes 2 0x7e00,
  rw nan refl,
  omega arith,
  λ rest.
      rw (nan, read_be_u64-be_bytes 2 0x7e00 rest (omega arith) (omega arith) (omega arith)) refl,
)

half-FloatBack :
    (x h : ℕ)
    → x < 2 ^ 64
    → is_nan x ≡ false
    → f16_from_f64_exact x ≡ some h
    → FloatBack x (write_half [] x (some h))
unfolding write_half read_simple_or_float read_half
half-FloatBack x h bound number found =
    let (small, others) = f16_from_f64_exact-IsBack x h bound found in
    (
      25,
      be_bytes 2 h,
      refl,
      omega arith,
      λ rest.
          rw
            (
              number,
              read_be_u64-be_bytes 2 h rest (omega arith) (omega arith) (omega arith),
              others.0,
              others.1,
            )
            refl,
    )

single-FloatBack :
    (x y : ℕ)
    → is_nan x ≡ false
    → f16_from_f64_exact x ≡ none
    → f32_from_f64_exact x ≡ some y
    → FloatBack x (write_single [] x (some y))
unfolding write_single read_simple_or_float read_single
single-FloatBack x y number no_half found =
    let (small, proper, back) = f32_from_f64_exact_ok x y number found in
    (
      26,
      be_bytes 4 y,
      refl,
      omega arith,
      λ rest.
          rw
            (
              number,
              read_be_u64-be_bytes 4 y rest (omega arith) (omega arith) (omega arith),
              proper,
              back,
              no_half,
            )
            refl,
    )

double-FloatBack :
    (x : ℕ)
    → x < 2 ^ 64
    → is_nan x ≡ false
    → f16_from_f64_exact x ≡ none
    → f32_from_f64_exact x ≡ none
    → FloatBack x (write_single [] x none)
unfolding write_single read_simple_or_float read_double
double-FloatBack x bound number no_half no_single = (
  27,
  be_bytes 8 x,
  refl,
  omega arith,
  λ rest.
      rw
        (
          read_be_u64-be_bytes 8 x rest (omega arith) (omega arith) (omega arith),
          number,
          no_half,
          no_single,
        )
        refl,
)

wide-FloatBack :
    (x : ℕ)
    → x < 2 ^ 64
    → is_nan x ≡ false
    → f16_from_f64_exact x ≡ none
    → FloatBack x (write_half [] x none)
unfolding write_half
wide-FloatBack x bound number no_half = elim (Option-cases (f32_from_f64_exact x)) [
  | inl none_found ↦ rw none_found (double-FloatBack x bound number no_half none_found)
  | inr (y, found) ↦ rw found (single-FloatBack x y number no_half found)
]

number-FloatBack :
    (x : ℕ) → x < 2 ^ 64 → is_nan x ≡ false → FloatBack x (write_half [] x (f16_from_f64_exact x))
number-FloatBack x bound number = elim (Option-cases (f16_from_f64_exact x)) [
  | inl none_found ↦ rw none_found (wide-FloatBack x bound number none_found)
  | inr (h, found) ↦ rw found (half-FloatBack x h bound number found)
]

pub write_float-FloatBack : (x : ℕ) → x < 2 ^ 64 → FloatBack x (write_float [] x)
write_float-FloatBack x bound =
    by_test (is_nan x) (λ nan. nan-FloatBack x nan)
      (λ number.
        let wrote : write_float [] x ≡ write_half [] x (f16_from_f64_exact x) =
          unfold write_float in rw number refl in
        rw wrote (number-FloatBack x bound number))
