-- ===== src/Cbor/Float/Bounds.antt =====
-- The widths of the float conversions, and of a number's bit length.
use aws_crt.Prelude.{
  ℕ, zero, suc, ◌+◌, ◌-◌, ◌*◌, ◌/◌, ◌%◌, ◌^◌, ◌≤◌, ◌<◌, ◌≡◌, refl, arith, true, inl, inr,
  Bool-cases, ◌==◌, ==_iff,
}
use aws_crt.Cbor.Float.{
  magnitude64, same_float, bit_length_fuel, bit_length, widen, narrow, round_shift,
}
use native.Mathlib.Numerals.{towards_suc}
use native.Mathlib.Nat.{pow-suc, pow-le-pow_right, div-lt_iff_lt-mul}

round_shift-le : (m s : ℕ) → round_shift m s ≤ m / 2 ^ s + 1
unfolding round_shift
round_shift-le m s = ground arith

-- A shift by 30 or more leaves few bits of a 53-bit number.
round_shift_bound : (m s : ℕ) → m < 2 ^ 53 → 30 ≤ s → round_shift m s < 2 ^ 24
round_shift_bound m s h hs =
    let p : 2 ^ 30 ≤ 2 ^ s = pow-le-pow_right (omega arith) hs in
    let q : m / 2 ^ s < 2 ^ 23 = (div-lt_iff_lt-mul {k = 2 ^ s} (omega arith)).1 (omega arith) in
    omega (arith, round_shift-le m s)

pub narrow_bound : (v : ℕ) → v < 2 ^ 64 → narrow v < 2 ^ 32
unfolding narrow
narrow_bound v h =
    ground (arith, round_shift_bound (2 ^ 52 + v % 2 ^ 52) (926 - magnitude64 v / 2 ^ 52))

widen-narrow_zero : (v : ℕ) → v < 2 ^ 64 → magnitude64 v ≡ 0 → widen (narrow v) ≡ v
widen-narrow_zero v h z = elim (Bool-cases (v == 0)) [
  | inl e ↦ let e' : v ≡ 0 = (==_iff _ _).0 e in rw e' (unfold widen narrow in refl)
  | inr e ↦ let e' : v ≡ 2 ^ 63 = ground arith in rw e' (unfold widen narrow in refl)
]

-- A number that `==` cannot tell from its f32 is given back by it, bit for bit.
pub widen-narrow :
    (v : ℕ) → v < 2 ^ 64 → same_float (widen (narrow v)) v ≡ true → widen (narrow v) ≡ v
widen-narrow v h e = elim (Bool-cases (magnitude64 v == 0)) [
  | inl z ↦ widen-narrow_zero v h ((==_iff _ _).0 z)
  | inr z ↦ ground arith
]

bit_length_fuel_bound : (f n : ℕ) → n ≤ f → n < 2 ^ bit_length_fuel f n
unfolding bit_length_fuel
bit_length_fuel_bound zero n h = omega arith
bit_length_fuel_bound (suc f) zero h = omega arith
bit_length_fuel_bound (suc f) (suc n) h =
    rw pow-suc (omega (arith, bit_length_fuel_bound f (suc n / 2) (omega arith)))

pub bit_length_bound : (n : ℕ) → n < 2 ^ bit_length n
unfolding bit_length
bit_length_bound n = bit_length_fuel_bound n n (omega arith)

pub pow-256 : (k : ℕ) → 256 ^ k ≡ 2 ^ (8 * k)
pow-256 zero = refl
pow-256 (suc k) =
    let step : 8 * suc k ≡ 8 * k + 8 = omega arith in
    rw (step, pow-suc) (simp towards_suc (omega (arith, pow-256 k)))

-- The whole bytes that hold a number's bits.
pub bytes_bound : (n : ℕ) → n < 256 ^ ((bit_length n + 7) / 8)
bytes_bound n =
    let room : bit_length n ≤ 8 * ((bit_length n + 7) / 8) = omega arith in
    let p : 2 ^ bit_length n ≤ 2 ^ (8 * ((bit_length n + 7) / 8)) =
      pow-le-pow_right (omega arith) room in
    rw pow-256 (omega (arith, bit_length_bound n))
