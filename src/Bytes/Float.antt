-- ===== src/Bytes/Float.antt =====
-- Casts to a 32-bit IEEE float, rounded to the nearest and ties to even. A float or a double is its
-- bit pattern.
use metal_runtime.Common.{
  ℕ, zero, suc, ◌+◌, ◌-◌, ◌*◌, ◌/◌, ◌%◌, ◌^◌, ◌≡◌, refl, min, max, ◌&&◌, ◌||◌, ltb, ◌==◌,
  if◌then◌else◌,
}
use metal_runtime.Common.Int.{ℤ, pos, negsuc}

-- The binary digits of a number below 2 ^ fuel.
unfoldable pub bit_length : ℕ → ℕ → ℕ
bit_length zero m = 0
bit_length (suc fuel) m = if m == 0 then 0 else suc (bit_length fuel (m / 2))

-- m / d, to the nearest, ties to even.
unfoldable pub round_div : ℕ → ℕ → ℕ
round_div m d =
    let q = m / d in
    let r = m % d in if ltb d (2 * r) || (2 * r == d && q % 2 == 1) then q + 1 else q

abbrev pub infinity : ℕ
infinity = 255 * 2 ^ 23

-- The float nearest to m * 2 ^ (e - 1074). The unit of its last place is 2 ^ (u - 1074), and not
-- below 2 ^ -149; the pattern's exponent field counts from there, and a carry goes into it.
unfoldable pub nearest_float : ℕ → ℕ → ℕ
unfolding bit_length round_div
nearest_float m e =
    let u = max (e + bit_length 64 m - 24) 925 in
    let r = if ltb u e then m * 2 ^ (e - u) else round_div m (2 ^ (u - e)) in
    min ((u - 925) * 2 ^ 23 + r) infinity

abbrev pub sign_bit : ℕ
sign_bit = 2 ^ 31

-- `(float)v` of an `int64_t`
unfoldable pub float_of_int : ℤ → ℕ
unfolding nearest_float
float_of_int (pos n) = nearest_float n 1074
float_of_int (negsuc n) = sign_bit + nearest_float (suc n) 1074

-- `(float)f` of a `double`. A NaN becomes quiet and keeps the top of its payload.
unfoldable pub float_of_double : ℕ → ℕ
unfolding nearest_float
float_of_double bits =
    let exponent = bits / 2 ^ 52 % 2 ^ 11 in
    let fraction = bits % 2 ^ 52 in
    let magnitude =
      if exponent == 2047
      then (if fraction == 0 then infinity else infinity + 2 ^ 22 + fraction / 2 ^ 29 % 2 ^ 22)
      else if exponent == 0
      then nearest_float fraction 0
      else nearest_float (2 ^ 52 + fraction) (exponent - 1) in
    bits / 2 ^ 63 * sign_bit + magnitude

one : float_of_double 0x3ff0_0000_0000_0000 ≡ 0x3f80_0000
unfolding float_of_double
one = refl

tenth : float_of_double 0x3fb9_9999_9999_999a ≡ 0x3dcc_cccd
unfolding float_of_double
tenth = refl

smallest_subnormal : float_of_double 0x36a0_0000_0000_0000 ≡ 1
unfolding float_of_double
smallest_subnormal = refl

too_large : float_of_double 0xffef_ffff_ffff_ffff ≡ sign_bit + infinity
unfolding float_of_double
too_large = refl

tie_to_even : float_of_int (pos (2 ^ 24 + 1)) ≡ float_of_int (pos (2 ^ 24))
unfolding float_of_int
tie_to_even = refl

minus_three : float_of_int (negsuc 2) ≡ 0xc040_0000
unfolding float_of_int
minus_three = refl
