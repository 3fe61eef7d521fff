-- ===== src/Prelude/Bytes.antt =====
-- Bytes, big-endian words and the bit operations on one byte.
use aws_crt.Prelude.Tests.{◌==◌, ==_iff, Bool-cases}
use mathlib.Core.Logic.{inl, inr}
use aws_crt.Prelude.Lists.{length}
use Prim.Native.Nat.{ℕ, zero, suc, ◌+◌, ◌*◌, ◌/◌, ◌%◌, ◌^◌, ◌<◌, bit_and, bit_or}
use mathlib.Core.Path.{◌≡◌, refl, ap, ◌∙◌}
use mathlib.Core.Bool.{Bool, true, false, ◌&&◌}
use mathlib.Core.List.{List, [], ◌∷◌, foldl}
use native.Mathlib.Nat.{pow-suc, mod-eq_of_lt, div-add-mod, div-div-eq-div-mul}
use native.Mathlib.Omega.{arith}

abbrev pub u8_mod : ℕ
u8_mod = 256

-- The `k` low bytes of `n`, the highest first: `to_be_bytes` of a k-byte word.
unfoldable pub to_be : ℕ → ℕ → List ℕ
to_be zero n = []
to_be (suc k) n = (n / 256 ^ k % 256) ∷ to_be k n

abbrev pub be_step : ℕ → ℕ → ℕ
be_step acc b = acc * 256 + b

-- `from_be_bytes`.
unfoldable pub from_be : List ℕ → ℕ
from_be = foldl be_step 0

pub length-to_be : (k n : ℕ) → length (to_be k n) ≡ k
unfolding to_be
length-to_be zero n = refl
length-to_be (suc k) n = ap suc (length-to_be k n)

-- The remainder by a product.
mod_split : (n p : ℕ) → n % (p * 256) ≡ n / p % 256 * p + n % p
mod_split n p = omega (
  arith,
  ap (λ (t : ℕ). t * (p * 256)) (div-div-eq-div-mul n p 256),
  div-add-mod n p,
  div-add-mod n (p * 256),
  ap (λ (t : ℕ). t * p) (div-add-mod (n / p) 256),
)

add_scaled : (a d p : ℕ) → (a * 256 + d) * p ≡ a * (p * 256) + d * p
add_scaled a d p = omega arith

foldl-to_be : (k n acc : ℕ) → foldl be_step acc (to_be k n) ≡ acc * 256 ^ k + n % 256 ^ k
unfolding to_be
foldl-to_be zero n acc = omega arith
foldl-to_be (suc k) n acc =
    foldl-to_be k n (be_step acc (n / 256 ^ k % 256))
    ∙ rw pow-suc
        (omega (arith, mod_split n (256 ^ k), add_scaled acc (n / 256 ^ k % 256) (256 ^ k)))

pub from_be-to_be : (k n : ℕ) → n < 256 ^ k → from_be (to_be k n) ≡ n
unfolding from_be
from_be-to_be k n h = foldl-to_be k n 0 ∙ omega (arith, mod-eq_of_lt h)

-- A test that two functions agree at each byte, and what it gives at one.
unfoldable pub agree_below : (ℕ → ℕ) → (ℕ → ℕ) → ℕ → Bool
agree_below f g zero = true
agree_below f g (suc k) = agree_below f g k && (f k == g k)

both : (x y : Bool) → (x && y) ≡ true → (x ≡ true) × (y ≡ true)
both true true e = (refl, refl)
both true false e = (refl, e)
both false y e = (e, absurd cc)

pub agree_at :
    (bound : ℕ) (f g : ℕ → ℕ) (b : ℕ) → b < bound → agree_below f g bound ≡ true → f b ≡ g b
unfolding agree_below
agree_at zero f g b lt all = absurd (omega arith)
agree_at (suc k) f g b lt all =
    let (lower, last) = both (agree_below f g k) (f k == g k) all in
    elim (Bool-cases (b == k)) [
      | inl e ↦ rw ((==_iff b k).0 e) ((==_iff (f k) (g k)).0 last)
      | inr e ↦ agree_at k f g b (ground arith) lower
    ]

pub low_five : (b : ℕ) → b < 256 → bit_and b 0x1f ≡ b % 32
unfolding agree_below
low_five b h = agree_at 256 (λ b. bit_and b 0x1f) (λ b. b % 32) b h refl

head_bits : (b : ℕ) → b < 256 → bit_or (b / 32 * 32) (b % 32) ≡ b
unfolding agree_below
head_bits b h = agree_at 256 (λ b. bit_or (b / 32 * 32) (b % 32)) (λ b. b) b h refl

-- A head byte: three bits of major type over five bits of additional information.
pub join_head : (m a : ℕ) → m < 8 → a < 32 → bit_or (m * 32) a ≡ m * 32 + a
join_head m a hm ha = ground (arith, head_bits (m * 32 + a) (omega arith))

-- Equality of byte strings.
unfoldable pub same_bytes : List ℕ → List ℕ → Bool
same_bytes [] [] = true
same_bytes (a ∷ as') (b ∷ bs) = a == b && same_bytes as' bs
same_bytes _ _ = false
