-- ===== src/ValueCodec/Floats.antt =====
-- The half and single precision conversions of cbor.rs, on bit patterns. `>>` is a quotient, `&` with
-- a mask of low bits a remainder, and `|` and `<<` of fields that do not meet a sum of products. An
-- exponent is the biased one of the 64-bit pattern, where the source subtracts 1023.
use acetone.Prelude.{
  ℕ, zero, suc, ◌+◌, ◌-◌, ◌*◌, ◌/◌, ◌%◌, ◌^◌, Option, none, some, ◌&&◌, ◌||◌, ltb, leb, ◌==◌,
  if◌then◌else◌,
}
use acetone.Model.{is_zero}

abbrev pub infinity : ℕ
infinity = 0x7ff0_0000_0000_0000

abbrev pub canonical_nan_bits : ℕ
canonical_nan_bits = 0x7ff8_0000_0000_0000

-- The magnitude m · 2 ^ (e - 1075) as a double, by shifting m up to bit 52.
unfoldable pub shift_up : ℕ → ℕ → ℕ → ℕ
shift_up zero e m = e * 2 ^ 52 + (m - 2 ^ 52)
shift_up (suc fuel) e m =
    let more = shift_up fuel (e - 1) (2 * m) in
    if leb (2 ^ 52) m then e * 2 ^ 52 + (m - 2 ^ 52) else more

-- The product of a whole number below 2 ^ 53 and a power of two, which a double holds exactly.
unfoldable pub scaled : ℕ → ℕ → ℕ
unfolding shift_up
scaled m e = if m == 0 then 0 else shift_up 52 e m

-- `-magnitude` sets the sign bit.
unfoldable pub f16_bits_to_f64 : ℕ → ℕ
unfolding scaled
f16_bits_to_f64 bits =
    let exp = bits / 2 ^ 10 % 2 ^ 5 in
    let frac = bits % 2 ^ 10 in
    let sign = bits / 2 ^ 15 % 2 * 2 ^ 63 in
    if exp == 0
    then sign + scaled frac 1051
    else if exp == 31
    then if frac == 0 then sign + infinity else canonical_nan_bits
    else sign + scaled (1024 + frac) (exp + 1050)

unfoldable pub f16_from_f64_exact : ℕ → Option ℕ
unfolding is_zero
f16_from_f64_exact x =
    let sign = x / 2 ^ 63 % 2 * 2 ^ 15 in
    let exp = x / 2 ^ 52 % 2 ^ 11 in
    let frac = x % 2 ^ 52 in
    if is_zero x
    then some sign
    else if x % 2 ^ 63 == infinity
    then some (sign + 0x7c00)
    else if leb 1009 exp && leb exp 1038
    then if frac % 2 ^ 42 == 0 then some (sign + (exp - 1008) * 2 ^ 10 + frac / 2 ^ 42) else none
    else if leb 999 exp && leb exp 1008
    then if (2 ^ 52 + frac) % 2 ^ (1051 - exp) == 0
      then some (sign + (2 ^ 52 + frac) / 2 ^ (1051 - exp))
      else none
    else none

-- `x as f32`: to nearest, ties to even; too large is infinite. A carry runs on into the exponent.
unfoldable pub round_off : ℕ → ℕ → ℕ
round_off m s =
    let quotient = m / 2 ^ s in
    let rest = m % 2 ^ s in
    if ltb (2 ^ (s - 1)) rest || ((rest == 2 ^ (s - 1)) && (quotient % 2 == 1))
    then quotient + 1
    else quotient

unfoldable pub narrow_magnitude : ℕ → ℕ
unfolding round_off
narrow_magnitude m =
    let exp = m / 2 ^ 52 in
    let frac = m % 2 ^ 52 in
    if exp == 2047
    then if frac == 0 then 0x7f80_0000 else 0x7fc0_0000
    else if leb 1151 exp
    then 0x7f80_0000
    else if leb 897 exp
    then round_off (m - 896 * 2 ^ 52) 29
    else if exp == 0
    then 0
    else round_off (2 ^ 52 + frac) (926 - exp)

unfoldable pub narrow : ℕ → ℕ
unfolding narrow_magnitude
narrow x = x / 2 ^ 63 % 2 * 2 ^ 31 + narrow_magnitude (x % 2 ^ 63)

-- `f64::from` of an `f32`. A NaN becomes some NaN: its payload matters to no caller.
unfoldable pub widen_magnitude : ℕ → ℕ
unfolding scaled
widen_magnitude m =
    let exp = m / 2 ^ 23 in
    let frac = m % 2 ^ 23 in
    if exp == 255
    then if frac == 0 then infinity else canonical_nan_bits
    else if exp == 0
    then scaled frac 926
    else (exp + 896) * 2 ^ 52 + frac * 2 ^ 29

unfoldable pub widen : ℕ → ℕ
unfolding widen_magnitude
widen y = y / 2 ^ 31 % 2 * 2 ^ 63 + widen_magnitude (y % 2 ^ 31)

unfoldable pub f32_from_f64_exact : ℕ → Option ℕ
unfolding narrow widen
f32_from_f64_exact x = let y = narrow x in if widen y == x then some y else none
