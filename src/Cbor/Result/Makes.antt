-- ===== src/Cbor/Result/Makes.antt =====
-- What a reader returns when it returns: a property of the value and of the position behind it.
use aws_crt.Prelude.{ℕ, ◌≡◌, refl, subst, Bool, true, false, if◌then◌else◌}
use aws_crt.Cbor.Result.{Result, ok, err, panicked, out_of_fuel, ◌>>=◌, Error}

pub data Makes {A : Type 0} (P : A → ℕ → Type 0) : Result (A × ℕ) → Type 0 where
  made : {a : A} {q : ℕ} → P a q → Makes P (ok (a, q))
  refused : {e : Error} → Makes P (err e)
  panics : Makes P panicked
  starved : Makes P out_of_fuel

pub Makes-bind :
    {A B : Type 0} {Q : A → ℕ → Type 0} {P : B → ℕ → Type 0} {r : Result (A × ℕ)}
    (g : A × ℕ → Result (B × ℕ))
    → Makes Q r
    → ((a : A) (q : ℕ) → Q a q → Makes P (g (a, q)))
    → Makes P (r >>= g)
Makes-bind g (made {a} {q} h) k = k a q h
Makes-bind g refused k = refused
Makes-bind g panics k = panics
Makes-bind g starved k = starved

pub Makes-if :
    {A : Type 0} {P : A → ℕ → Type 0} (b : Bool) {r s : Result (A × ℕ)}
    → (b ≡ true → Makes P r)
    → (b ≡ false → Makes P s)
    → Makes P (if b then r else s)
Makes-if true h k = h refl
Makes-if false h k = k refl

pub Makes-map :
    {A : Type 0} {Q P : A → ℕ → Type 0} {r : Result (A × ℕ)}
    → Makes Q r
    → ((a : A) (q : ℕ) → Q a q → P a q)
    → Makes P r
Makes-map (made {a} {q} h) k = made (k a q h)
Makes-map refused k = refused
Makes-map panics k = panics
Makes-map starved k = starved

AtOk : {A : Type 0} → (A → ℕ → Type 0) → Result (A × ℕ) → Type 0
AtOk P (ok (a, q)) = P a q
AtOk P (err e) = Unit {0}
AtOk P panicked = Unit {0}
AtOk P out_of_fuel = Unit {0}

Makes-AtOk : {A : Type 0} {P : A → ℕ → Type 0} {r : Result (A × ℕ)} → Makes P r → AtOk P r
unfolding AtOk
Makes-AtOk (made h) = h
Makes-AtOk refused = tt
Makes-AtOk panics = tt
Makes-AtOk starved = tt

pub Makes-ok :
    {A : Type 0} {P : A → ℕ → Type 0} {r : Result (A × ℕ)} {a : A} {q : ℕ}
    → Makes P r
    → r ≡ ok (a, q)
    → P a q
unfolding AtOk
Makes-ok {P} m e = subst (AtOk P) e (Makes-AtOk m)
