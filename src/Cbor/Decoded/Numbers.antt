-- ===== src/Cbor/Decoded/Numbers.antt =====
-- Bytes, pieces of them, and the numbers that are read from them.
use aws_crt.Prelude.{
  ℕ, zero, suc, ◌+◌, ◌*◌, ◌^◌, ◌≤◌, ◌<◌, ◌≡◌, arith, List, [], ◌∷◌, length, take, drop, from_be,
}
use native.Mathlib.Nat.{pow-suc}
use mathlib.Core.List.{foldl}

abbrev pub AreBytes : List ℕ → Type 0
AreBytes [] = Unit {0}
AreBytes (b ∷ bs) = (b < 256) × AreBytes bs

pub drop-AreBytes : (n : ℕ) (bs : List ℕ) → AreBytes bs → AreBytes (drop n bs)
drop-AreBytes zero bs h = h
drop-AreBytes (suc n) [] h = tt
drop-AreBytes (suc n) (b ∷ bs) h = drop-AreBytes n bs (h.1)

pub take-AreBytes : (n : ℕ) (bs : List ℕ) → AreBytes bs → AreBytes (take n bs)
take-AreBytes zero bs h = tt
take-AreBytes (suc n) [] h = tt
take-AreBytes (suc n) (b ∷ bs) h = (h.0, take-AreBytes n bs (h.1))

pub length-take-le : (n : ℕ) (bs : List ℕ) → length (take n bs) ≤ n
length-take-le zero bs = omega arith
length-take-le (suc n) [] = omega arith
length-take-le (suc n) (b ∷ bs) = omega (arith, length-take-le n bs)

pub length-take-le_length : (n : ℕ) (bs : List ℕ) → length (take n bs) ≤ length bs
length-take-le_length zero bs = omega arith
length-take-le_length (suc n) [] = omega arith
length-take-le_length (suc n) (b ∷ bs) = omega (arith, length-take-le_length n bs)

foldl_bound :
    (bs : List ℕ) (acc k : ℕ)
    → AreBytes bs
    → acc < 256 ^ k
    → foldl (λ (a b : ℕ). a * 256 + b) acc bs < 256 ^ (k + length bs)
foldl_bound [] acc k h lt = let e : k + 0 ≡ k = omega arith in rw e lt
foldl_bound (b ∷ bs) acc k h lt =
    let e : k + suc (length bs) ≡ suc k + length bs = omega arith in
    rw e (foldl_bound bs (acc * 256 + b) (suc k) (h.1) (rw pow-suc (omega (arith, h.0))))

pub from_be_bound : (bs : List ℕ) → AreBytes bs → from_be bs < 256 ^ length bs
unfolding from_be
from_be_bound bs h =
    let e : 0 + length bs ≡ length bs = omega arith in rw e at (foldl_bound bs 0 0 h (omega arith))
