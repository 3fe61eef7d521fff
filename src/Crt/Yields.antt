-- ===== src/Crt/Yields.antt =====
-- Rules for a property of the value that a function of ext/aws_crt/src returns.
use aws_crt.Prelude.{List}
use aws_crt.Crt.Resource.{Call, Resource}
use aws_crt.Crt.Action.{
  Ended, M, afterwards, continue, drop_on_exit, end_with, failed, owning, panicked, returned, ◌>>=◌,
}
use aws_crt.Crt.Runs.{Runs, Settled, gave_up, settled}

-- A value that m returns has a property, whatever the log.
abbrev pub Yields : {A : Type 0} → (A → Type 0) → Ended A → Type 0
Yields P (returned a log) = P a
Yields P (failed code log) = Unit {0}
Yields P (panicked log) = Unit {0}

pub Yields-bind :
    {A B : Type 0} (P : B → Type 0) (m : M A) (f : A → M B)
    → ((a : A) (log : List Call) → Yields P (f a log))
    → (log : List Call) → Yields P ((m >>= f) log)
unfolding ◌>>=◌
Yields-bind P m f k log = through (m log)
  where
    through : (t : Ended _) → Yields P (continue t f)
    through (returned a log) = k a log
    through (failed code log) = tt
    through (panicked log) = tt

pub Yields-bind_with :
    {A B : Type 0} (Q : A → Type 0) (P : B → Type 0) (m : M A) (f : A → M B)
    → ((log : List Call) → Yields Q (m log))
    → ((a : A) → Q a → (log : List Call) → Yields P (f a log))
    → (log : List Call) → Yields P ((m >>= f) log)
unfolding ◌>>=◌
Yields-bind_with Q P m f y k log = through (m log) (y log)
  where
    through : (t : Ended _) → Yields Q t → Yields P (continue t f)
    through (returned a log) q = k a q log
    through (failed code log) q = tt
    through (panicked log) q = tt

pub Yields-owning :
    {A : Type 0} (P : A → Type 0) (r : Resource) (m : M A)
    → ((log : List Call) → Yields P (m log))
    → (log : List Call) → Yields P (owning r m log)
unfolding owning
Yields-owning P r m k log = through (m log) (k log)
  where
    through : (t : Ended _) → Yields P t → Yields P (drop_on_exit r t)
    through (returned a log) y = y
    through (failed code log) y = tt
    through (panicked log) y = tt

pub Yields-afterwards :
    {A : Type 0} (P : A → Type 0) (r : Resource) (m : M A)
    → ((log : List Call) → Yields P (m log))
    → (log : List Call) → Yields P (afterwards r m log)
unfolding afterwards
Yields-afterwards P r m k log = through (m log) (k log)
  where
    through : (t : Ended _) → Yields P t → Yields P (end_with r t)
    through (returned a log) y = y
    through (failed code log) y = tt
    through (panicked log) y = tt

Settled-Yields :
    {A B : Type 0} {base mid good bad : List Resource} (P : A → Type 0) {r : Ended A} {f : A → M B}
    → Settled base mid bad r
    → Yields P r
    → ((a : A) → P a → Runs mid (f a) good bad)
    → Settled base good bad (continue r f)
Settled-Yields P (settled {a} {log} e) y k = (k a y).ends _ log e
Settled-Yields P (gave_up e) y k = gave_up e

-- The same as Runs-bind, where the value of m has a property.
pub Runs-bind-Yields :
    {A B : Type 0} {h mid good bad : List Resource} {m : M A} {f : A → M B} (P : A → Type 0)
    → Runs h m mid bad
    → ((log : List Call) → Yields P (m log))
    → ((a : A) → P a → Runs mid (f a) good bad)
    → Runs h (m >>= f) good bad
unfolding ◌>>=◌
Runs-bind-Yields P p y k = record {
  ends = λ base log e. Settled-Yields P (p.ends base log e) (y log) k;
}
