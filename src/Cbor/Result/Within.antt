-- ===== src/Cbor/Result/Within.antt =====
-- Readers that end, and leave the position inside the input.
use aws_crt.Prelude.{ℕ, ◌≤◌, ◌≡◌, ◌≢◌, refl, Bool, true, false, if◌then◌else◌, arith}
use aws_crt.Cbor.Result.{Result, ok, err, panicked, out_of_fuel, ◌>>=◌, Error}

-- The reader came to an end, and a position that it gives lies from `lo` to `hi`.
pub data Within {A : Type 0} (lo hi : ℕ) : Result (A × ℕ) → Type 0 where
  moved : {a : A} {q : ℕ} → lo ≤ q → q ≤ hi → Within lo hi (ok (a, q))
  refused : {e : Error} → Within lo hi (err e)
  panics : Within lo hi panicked

pub Within-bind :
    {A B : Type 0} {lo mid hi : ℕ} {r : Result (A × ℕ)} (g : A × ℕ → Result (B × ℕ))
    → Within mid hi r
    → ((a : A) (q : ℕ) → mid ≤ q → q ≤ hi → Within lo hi (g (a, q)))
    → Within lo hi (r >>= g)
Within-bind g (moved {a} {q} h k) f = f a q h k
Within-bind g refused f = refused
Within-bind g panics f = panics

-- The same behind a step that only looks.
pub Within-if :
    {A : Type 0} {lo hi : ℕ} (b : Bool) {r s : Result (A × ℕ)}
    → (b ≡ true → Within lo hi r)
    → (b ≡ false → Within lo hi s)
    → Within lo hi (if b then r else s)
Within-if true h k = h refl
Within-if false h k = k refl

pub Within-ne-out_of_fuel :
    {A : Type 0} {lo hi : ℕ} {r : Result (A × ℕ)} → Within lo hi r → r ≢ out_of_fuel
Within-ne-out_of_fuel (moved h k) e = cc
Within-ne-out_of_fuel refused e = cc
Within-ne-out_of_fuel panics e = cc

pub Within-ok :
    {A : Type 0} {lo hi : ℕ} {r : Result (A × ℕ)} {a : A} {q : ℕ}
    → Within lo hi r
    → r ≡ ok (a, q)
    → (lo ≤ q) × (q ≤ hi)
Within-ok (moved h k) e = ground arith
Within-ok refused e = cc
Within-ok panics e = cc

pub Within-weaken :
    {A : Type 0} {lo lo' hi : ℕ} {r : Result (A × ℕ)} → lo' ≤ lo → Within lo hi r → Within lo' hi r
Within-weaken l (moved h k) = moved (omega arith) k
Within-weaken l refused = refused
Within-weaken l panics = panics
