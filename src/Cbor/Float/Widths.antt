-- ===== src/Cbor/Float/Widths.antt =====
-- Upper bounds on the bits of a number and on the floats that the decoder of ext/aws_crt/src/cbor.rs
-- makes.
use aws_crt.Prelude.{
  ℕ, zero, suc, ◌+◌, ◌-◌, ◌*◌, ◌/◌, ◌%◌, ◌^◌, ◌≤◌, ◌<◌, ◌≡◌, refl, arith, agree_below, agree_at,
}
use aws_crt.Cbor.Float.{bit_length_fuel, bit_length, normal64, widen, half_value}
use aws_crt.Cbor.Float.Bounds.{bit_length_bound}
use native.Mathlib.Nat.{pow-suc, mul-le-mul_right}

bit_length_fuel_le : (f n k : ℕ) → n ≤ f → n < 2 ^ k → bit_length_fuel f n ≤ k
unfolding bit_length_fuel
bit_length_fuel_le zero n k h lt = omega arith
bit_length_fuel_le (suc f) zero k h lt = omega arith
bit_length_fuel_le (suc f) (suc n) zero h lt = absurd (omega arith)
bit_length_fuel_le (suc f) (suc n) (suc k) h lt =
    let wide : suc n < 2 ^ k * 2 = rw pow-suc at lt in
    omega (arith, bit_length_fuel_le f (suc n / 2) k (omega arith) (omega arith))

pub bit_length_le : (n k : ℕ) → n < 2 ^ k → bit_length n ≤ k
unfolding bit_length
bit_length_le n k h = bit_length_fuel_le n n k (omega arith) h

powers : (p : ℕ) → p < 53 → 2 ^ (p + 1) * 2 ^ (52 - p) ≡ 2 ^ 53
unfolding agree_below
powers p h = agree_at 53 (λ p. 2 ^ (p + 1) * 2 ^ (52 - p)) (λ p. 2 ^ 53) p h refl

-- The fraction and the implicit bit take 53 bits together.
scaled_bound :
    (m e k q : ℕ)
    → 0 < m
    → m < 2 ^ q
    → q ≤ suc k
    → k < 53
    → (q - 1 + e - 1) * 2 ^ 52 + m * 2 ^ (52 - (q - 1)) ≤ (k + e) * 2 ^ 52 + 2 ^ 53
scaled_bound m e k zero h lt le small = absurd (omega arith)
scaled_bound m e k (suc p) h lt le small =
    let less : suc p - 1 ≡ p = omega arith in
    let more : suc p ≡ p + 1 = omega arith in
    let bits : m ≤ 2 ^ (p + 1) = rw (← more) (omega arith) in
    rw less (omega (arith, mul-le-mul_right (2 ^ (52 - p)) bits, powers p (omega arith)))

normal64_bound :
    (m e k : ℕ) → 0 < m → m < 2 ^ suc k → k < 53 → normal64 m e ≤ (k + e) * 2 ^ 52 + 2 ^ 53
unfolding normal64
normal64_bound m e k h lt small =
    scaled_bound m e k (bit_length m) h (bit_length_bound m) (bit_length_le m (suc k) lt) small

pub widen_bound : (b : ℕ) → b < 2 ^ 32 → widen b < 2 ^ 64
unfolding widen
widen_bound b h = ground (
  arith,
  normal64_bound (b % 2 ^ 23) 874 22,
  normal64_bound (2 ^ 23 + b % 2 ^ 23) (b / 2 ^ 23 % 256 + 873) 23,
)

pub half_value_bound : (b : ℕ) → b < 2 ^ 16 → half_value b < 2 ^ 64
unfolding half_value
half_value_bound b h = ground (
  arith,
  normal64_bound (b % 2 ^ 10) 999 9,
  normal64_bound (1024 + b % 2 ^ 10) (b / 2 ^ 10 % 32 + 998) 10,
)
