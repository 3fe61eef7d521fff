-- ===== src/Crt/Fails.antt =====
-- Rules for a function of ext/aws_crt/src that never returns a value.
use aws_crt.Prelude.{Bool, List, [], false, refl, some, sym, true, ◌∙◌, ◌∷◌, ◌≡◌}
use aws_crt.Prelude.Int.{ℤ}
use aws_crt.Crt.Resource.{Call, Resource, all_in, replay, tls_ctx}
use aws_crt.Crt.Action.{
  Ended, M, check, check_or, continue, create, failed, log_of, panicked, returned, ◌>>=◌,
}
use aws_crt.Crt.Runs.{Runs, Runs-made, Settled, gave_up, settled}

-- A constructor that works, and a call that goes well.
pub Runs-works :
    {h bad : List Resource} (r : Resource) (needs : List Resource) (made : Bool) (code : ℤ)
    → made ≡ true
    → all_in needs h ≡ true
    → Runs h (create r needs made code) (r ∷ h) bad
Runs-works r needs true code m e = Runs-made r needs code e
Runs-works r needs false code m e = cc

pub Runs-fine_or :
    {h bad : List Resource} (fine : Bool) (r : Resource) (code : ℤ)
    → fine ≡ true
    → Runs h (check_or fine r code) h bad
unfolding check_or
Runs-fine_or true r code e = record { ends = λ base log p. settled p }
Runs-fine_or false r code e = cc

pub Runs-refuse :
    {h good : List Resource} (fine : Bool) (code : ℤ)
    → fine ≡ false
    → Runs h (check fine code) good h
unfolding check
Runs-refuse true code e = cc
Runs-refuse false code e = record { ends = λ base log p. gave_up p }

abbrev pub is_failed : {A : Type 0} → Ended A → Bool
is_failed (returned a log) = false
is_failed (failed code log) = true
is_failed (panicked log) = false

-- From any log after which `held` is held, m fails and leaves `bad` held.
pub record Fails {A : Type 0} (held : List Resource) (m : M A) (bad : List Resource) : Type 0 where
  pub fails :
      (base : List Resource) (log : List Call)
      → replay base log ≡ some held
      → (is_failed (m log) ≡ true) × (replay base (log_of (m log)) ≡ some bad)

Settled-replay :
    {A : Type 0} {base good bad : List Resource} {a : A} {log : List Call}
    → Settled base good bad (returned a log)
    → replay base log ≡ some good
Settled-replay (settled e) = e

gave_up-replay :
    {A : Type 0} {base good bad : List Resource} {code : ℤ} {log : List Call}
    → Settled {A = A} base good bad (failed code log)
    → replay base log ≡ some bad
gave_up-replay (gave_up e) = e

never_panicked :
    {A : Type 0} {base good bad : List Resource} {log : List Call}
    → Settled {A = A} base good bad (panicked log)
    → ⊥
never_panicked s = elim s [ ]

Settled-fails :
    {A : Type 0} {base bad : List Resource} (t : Ended A)
    → ((good : List Resource) → Settled base good bad t)
    → (is_failed t ≡ true) × (replay base (log_of t) ≡ some bad)
Settled-fails (returned a log) k =
    let e : some [] ≡ some (tls_ctx ∷ []) =
      sym (Settled-replay (k [])) ∙ Settled-replay (k (tls_ctx ∷ [])) in
    cc
Settled-fails (failed code log) k = (refl, gave_up-replay (k []))
Settled-fails (panicked log) k = absurd (never_panicked (k []))

-- What would leave anything at all after a value never gives one.
pub Runs-Fails :
    {A : Type 0} {h bad : List Resource} {m : M A}
    → ((good : List Resource) → Runs h m good bad)
    → Fails h m bad
Runs-Fails k = record { fails = λ base log e. Settled-fails _ (λ good. (k good).ends base log e) }

-- What never gives a value ends where it stands.
pub Runs-stop :
    {A B : Type 0} {h good bad : List Resource} {m : M A} (f : A → M B)
    → ((mid : List Resource) → Runs h m mid bad)
    → Runs h (m >>= f) good bad
unfolding ◌>>=◌
Runs-stop {m} f k = record {
  ends = λ base log e. stopped f (m log) (λ mid. (k mid).ends base log e);
}
  where
    stopped :
        {A B : Type 0} {base good bad : List Resource} (f : A → M B) (t : Ended A)
        → ((mid : List Resource) → Settled base mid bad t)
        → Settled base good bad (continue t f)
    stopped f (returned a log) k =
        let e : some [] ≡ some (tls_ctx ∷ []) =
          sym (Settled-replay (k [])) ∙ Settled-replay (k (tls_ctx ∷ [])) in
        cc
    stopped f (failed code log) k = gave_up (gave_up-replay (k []))
    stopped f (panicked log) k = absurd (never_panicked (k []))
