-- ===== src/Cbor/Float.antt =====
-- Floats by their bits: Rust's `as` conversions between f32 and f64 (to nearest, ties to even), its
-- `==` and `is_nan`, and the two routines of ext/aws_crt/src/cbor.rs that write and read floats.
pub mod Bounds
pub mod Widths
use aws_crt.Prelude.{
  ℕ, zero, suc, ◌+◌, ◌-◌, ◌*◌, ◌/◌, ◌%◌, ◌^◌, Bool, not, ◌&&◌, ◌||◌, ltb, leb, ◌==◌, if◌then◌else◌,
}

abbrev pub sign64 : ℕ → ℕ
sign64 b = b / 2 ^ 63

abbrev pub magnitude64 : ℕ → ℕ
magnitude64 b = b % 2 ^ 63

-- The exponent is all ones: an infinity with a zero fraction, a NaN with any other.
abbrev pub is_nan : ℕ → Bool
is_nan b = ltb 0x7ff0_0000_0000_0000 (magnitude64 b)

-- f64's `==`: no NaN equals anything, and the two zeros are equal.
abbrev pub same_float : ℕ → ℕ → Bool
same_float a b =
    not (is_nan a) && not (is_nan b) && (a == b || (magnitude64 a == 0 && magnitude64 b == 0))

-- The bit length of a number (Integer#bit_length); `n` itself is more than enough fuel.
pub bit_length_fuel : ℕ → ℕ → ℕ
bit_length_fuel zero n = 0
bit_length_fuel (suc f) n = elim n [ zero ↦ 0 | suc k ↦ suc (bit_length_fuel f (suc k / 2)) ]

unfoldable pub bit_length : ℕ → ℕ
unfolding bit_length_fuel
bit_length n = bit_length_fuel n n

-- The f64 of m * 2 ^ (e - 1023) for a positive m below 2 ^ 53 and a result that is a normal number.
unfoldable pub normal64 : ℕ → ℕ → ℕ
unfolding bit_length
normal64 m e = let p = bit_length m - 1 in (p + e - 1) * 2 ^ 52 + m * 2 ^ (52 - p)

-- `x as f64` for the bits of an f32.
unfoldable pub widen : ℕ → ℕ
unfolding normal64
widen b =
    let sign = b / 2 ^ 31 * 2 ^ 63 in
    let e = b / 2 ^ 23 % 256 in
    let m = b % 2 ^ 23 in
    if e == 255
    then (if m == 0
        then sign + 0x7ff0_0000_0000_0000
        else sign + 0x7ff8_0000_0000_0000 + m % 2 ^ 22 * 2 ^ 29)
    else if e == 0
    then (if m == 0 then sign else sign + normal64 m 874)
    else sign + normal64 (2 ^ 23 + m) (e + 873)

-- m / 2 ^ s, to nearest and to even in a tie.
unfoldable pub round_shift : ℕ → ℕ → ℕ
round_shift m s =
    let q = m / 2 ^ s in
    let r = m % 2 ^ s * 2 in if ltb (2 ^ s) r || (r == 2 ^ s && q % 2 == 1) then q + 1 else q

-- `x as f32` for the bits of an f64. A carry out of the fraction moves into the exponent.
unfoldable pub narrow : ℕ → ℕ
unfolding round_shift
narrow b =
    let sign = sign64 b * 2 ^ 31 in
    let e = magnitude64 b / 2 ^ 52 in
    let m = b % 2 ^ 52 in
    if e == 2047
    then (if m == 0 then sign + 0x7f80_0000 else sign + 0x7fc0_0000 + m / 2 ^ 29 % 2 ^ 22)
    else if leb 897 e
    then (let r = (e - 897) * 2 ^ 23 + round_shift (2 ^ 52 + m) 29 in
        if leb 0x7f80_0000 r then sign + 0x7f80_0000 else sign + r)
    else if e == 0
    then sign
    else sign + round_shift (2 ^ 52 + m) (926 - e)

-- The value of a half-precision float (RFC 8949, appendix D), as decode_half_raw computes it.
unfoldable pub half_value : ℕ → ℕ
unfolding normal64
half_value b16 =
    let e = b16 / 2 ^ 10 % 32 in
    let mant = b16 % 2 ^ 10 in
    let value =
      if e == 0
      then (if mant == 0 then 0 else normal64 mant 999)
      else if e == 31
      then (if mant == 0 then 0x7ff0_0000_0000_0000 else 0x7ff8_0000_0000_0000)
      else normal64 (1024 + mant) (e + 998) in
    if b16 / 2 ^ 15 == 0 then value else value + 2 ^ 63
