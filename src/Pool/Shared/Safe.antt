-- ===== src/Pool/Shared/Safe.antt =====
-- No interleaving of requests and of initialize takes a manager of a ConnectionPool of
-- ext/aws_crt/src/pool.rs from a request that uses it.
use aws_crt.Prelude.{
  ℕ, zero, suc, ◌-◌, ◌<◌, ◌≡◌, ◌↔◌, refl, arith, ◌==◌, Option, none, some, List, [], ◌∷◌, length,
  inl, inr, Bool-cases,
}
use aws_crt.Pool.Shared.{
  SharedPool, Taken, panicked, begin_with, new_pool, begin_request, end_request, store_manager,
  collect, drop_at, release_inner,
}

-- The steps of the threads, in any order. Ruby does not collect an object on which a method runs.
pub data Step : SharedPool → SharedPool → Type 0 where
  request : (s : SharedPool) → Step s (begin_request s).0
  ends : (n : ℕ) (s : SharedPool) → n < length (s.in_flight) → Step s (end_request n s)
  initialize : (m timeout : ℕ) (s : SharedPool) → Step s (store_manager m timeout s).0
  collected : (s : SharedPool) → s.in_flight ≡ [] → Step s (collect s)

pub data Reaches (s : SharedPool) : SharedPool → Type 0 where
  here : Reaches s s
  next : {t u : SharedPool} → Reaches s t → Step t u → Reaches s u

-- Each request took this manager and this timeout.
abbrev pub Uses : Option ℕ → ℕ → List Taken → Type 0
Uses inner timeout [] = Unit {0}
Uses inner timeout (t ∷ ts) =
    (inner ≡ some (t.manager)) × (t.read_timeout_ms ≡ timeout) × Uses inner timeout ts

abbrev pub held_by : Option ℕ → List ℕ
held_by none = []
held_by (some m) = m ∷ []

-- Each request in flight uses the manager and the timeout that the pool has now; that manager and no
-- other one is live; and the borrows are counted.
pub record IsSafe (s : SharedPool) : Type 0 where
  pub used : Uses (s.inner) (s.read_timeout_ms) (s.in_flight)
  pub alive : s.live ≡ held_by (s.inner)
  pub counted : s.borrows ≡ length (s.in_flight)

drop_at-Uses :
    (n : ℕ) (inner : Option ℕ) (timeout : ℕ) (ts : List Taken)
    → Uses inner timeout ts
    → Uses inner timeout (drop_at n ts)
drop_at-Uses n inner timeout [] u = tt
drop_at-Uses zero inner timeout (t ∷ ts) u = u.2
drop_at-Uses (suc n) inner timeout (t ∷ ts) u = (u.0, u.1, drop_at-Uses n inner timeout ts (u.2))

length-drop_at : (n : ℕ) (ts : List Taken) → n < length ts → length (drop_at n ts) ≡ length ts - 1
length-drop_at n [] h = absurd (omega arith)
length-drop_at zero (t ∷ ts) h = omega arith
length-drop_at (suc n) (t ∷ ts) h = omega (arith, length-drop_at n ts (omega arith))

none_taken : (ts : List Taken) → length ts ≡ 0 → ts ≡ []
none_taken [] h = refl
none_taken (t ∷ ts) h = absurd (omega arith)

released : (inner : Option ℕ) → release_inner inner (held_by inner) ≡ []
released none = refl
released (some m) = ground arith

begin-IsSafe :
    (inner : Option ℕ) (s : SharedPool) → s.inner ≡ inner → IsSafe s → IsSafe (begin_with inner s).0
begin-IsSafe none s e safe = safe
begin-IsSafe (some m) s e safe = record {
  used = (e, refl, safe.used);
  alive = safe.alive;
  counted = omega (arith, safe.counted);
}

store-IsSafe : (m timeout : ℕ) (s : SharedPool) → IsSafe s → IsSafe (store_manager m timeout s).0
unfolding store_manager
store-IsSafe m timeout s safe = elim (Bool-cases (s.borrows == 0)) [
  | inl free ↦
      let count = safe.counted in
      let empty : s.in_flight ≡ [] = none_taken (s.in_flight) (ground arith) in
      rw free (record {
        used = rw empty tt;
        alive = rw (safe.alive) (rw (released (s.inner)) refl);
        counted = count;
      })
  | inr busy ↦ rw busy safe
]

Step-IsSafe : {s t : SharedPool} → Step s t → IsSafe s → IsSafe t
unfolding begin_request end_request collect
Step-IsSafe (Step.request s) safe = begin-IsSafe (s.inner) s refl safe
Step-IsSafe (Step.ends n s h) safe = record {
  used = drop_at-Uses n (s.inner) (s.read_timeout_ms) (s.in_flight) (safe.used);
  alive = safe.alive;
  counted = omega (arith, safe.counted, length-drop_at n (s.in_flight) h);
}
Step-IsSafe (Step.initialize m timeout s) safe = store-IsSafe m timeout s safe
Step-IsSafe (Step.collected s e) safe = record {
  used = rw e tt;
  alive = rw (safe.alive) (released (s.inner));
  counted = safe.counted;
}

-- Whatever threads do with a new pool, in any order: each request in flight uses the manager that the
-- pool has, which is live, with the timeout that was given with it; no other manager is live; and as
-- many borrows are counted as requests are in flight.
pub Reaches-IsSafe : {s : SharedPool} → Reaches new_pool s → IsSafe s
Reaches-IsSafe Reaches.here = record { used = tt; alive = refl; counted = omega arith }
Reaches-IsSafe (Reaches.next r st) = Step-IsSafe st (Reaches-IsSafe r)

-- At every point, initialize with a new manager panics exactly when a request is in flight.
pub Reaches-panicked :
    {s : SharedPool} (m timeout : ℕ)
    → Reaches new_pool s
    → ((store_manager m timeout s).1 ≡ panicked) ↔ (0 < length (s.in_flight))
unfolding store_manager
Reaches-panicked {s} m timeout r =
    let count = (Reaches-IsSafe r).counted in
    elim (Bool-cases (s.borrows == 0)) [
      | inl free ↦ rw free (λ e. absurd (cc), λ h. absurd (ground arith))
      | inr busy ↦ rw busy (λ e. ground arith, λ h. refl)
    ]
