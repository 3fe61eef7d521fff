-- ===== src/Crt/Runs.antt =====
-- Rules for what a function of ext/aws_crt/src holds when it returns, and when it fails.
use aws_crt.Prelude.{Bool, List, false, if◌then◌else◌, refl, some, true, ◌∷◌, ◌≡◌}
use aws_crt.Prelude.Int.{ℤ}
use aws_crt.Crt.Resource.{Call, Resource, all_in, remove, replay}
use aws_crt.Crt.Action.{
  Ended, M, afterwards, check, check_or, continue, create, destroy, drop_on_exit, end_with,
  exit_with, expect, fail, failed, log_of, owning, pure, recover, recover_with, returned, scoped,
  ◌>>=◌,
}

-- The outcome of a function that does not panic: what is held after a value, and after an error.
pub data Settled {A : Type 0} (base good bad : List Resource) : Ended A → Type 0 where
  settled :
      {a : A} {log : List Call}
      → replay base log ≡ some good
      → Settled base good bad (returned a log)
  gave_up :
      {code : ℤ} {log : List Call}
      → replay base log ≡ some bad
      → Settled base good bad (failed code log)

pub Settled-held :
    {A : Type 0} {base held : List Resource} {t : Ended A}
    → Settled base held held t
    → replay base (log_of t) ≡ some held
Settled-held (settled e) = e
Settled-held (gave_up e) = e

-- From any log after which `held` is held, m ends with `good` held after a value and with `bad` held
-- after an error; every pointer that it uses is held at the call, and nothing is released twice.
pub record Runs {A : Type 0} (held : List Resource) (m : M A) (good bad : List Resource)
    : Type 0 where
  pub ends :
      (base : List Resource) (log : List Call)
      → replay base log ≡ some held
      → Settled base good bad (m log)

module _ {A : Type 0} {h : List Resource} where
  pub Runs-pure : {bad : List Resource} (a : A) → Runs h (pure a) h bad
  unfolding pure
  Runs-pure a = record { ends = λ base log e. settled e }

  pub Runs-fail : {good : List Resource} (code : ℤ) → Runs h (fail {A = A} code) good h
  unfolding fail
  Runs-fail code = record { ends = λ base log e. gave_up e }

  pub Runs-if :
      {good bad : List Resource} {m n : M A} (b : Bool)
      → Runs h m good bad
      → Runs h n good bad
      → Runs h (if b then m else n) good bad
  Runs-if true p q = p
  Runs-if false p q = q

pub Runs-create :
    {h : List Resource} (r : Resource) (needs : List Resource) (made : Bool) (code : ℤ)
    → all_in needs h ≡ true
    → Runs h (create r needs made code) (r ∷ h) h
unfolding create
Runs-create r needs true code e = record { ends = λ base log p. settled (rw (p, e) refl) }
Runs-create r needs false code e = record { ends = λ base log p. gave_up p }

-- The same where the answer is known.
pub Runs-made :
    {h bad : List Resource} (r : Resource) (needs : List Resource) (code : ℤ)
    → all_in needs h ≡ true
    → Runs h (create r needs true code) (r ∷ h) bad
unfolding create
Runs-made r needs code e = record { ends = λ base log p. settled (rw (p, e) refl) }

pub Runs-destroy :
    {h h' bad : List Resource} (r : Resource) → remove r h ≡ some h' → Runs h (destroy r) h' bad
unfolding destroy
Runs-destroy r e = record { ends = λ base log p. settled (rw (p, e) refl) }

pub Runs-check : {h : List Resource} (fine : Bool) (code : ℤ) → Runs h (check fine code) h h
unfolding check
Runs-check true code = record { ends = λ base log p. settled p }
Runs-check false code = record { ends = λ base log p. gave_up p }

-- The same where the call is known to be fine.
pub Runs-fine :
    {h bad : List Resource} (fine : Bool) (code : ℤ) → fine ≡ true → Runs h (check fine code) h bad
unfolding check
Runs-fine true code e = record { ends = λ base log p. settled p }
Runs-fine false code e = cc

pub Runs-check_or :
    {h h' : List Resource} (fine : Bool) (r : Resource) (code : ℤ)
    → remove r h ≡ some h'
    → Runs h (check_or fine r code) h h'
unfolding check_or
Runs-check_or true r code e = record { ends = λ base log p. settled p }
Runs-check_or false r code e = record { ends = λ base log p. gave_up (rw (p, e) refl) }

pub Runs-expect : {h bad : List Resource} (fine : Bool) → fine ≡ true → Runs h (expect fine) h bad
unfolding expect
Runs-expect true e = record { ends = λ base log p. settled p }
Runs-expect false e = cc

Settled-continue :
    {A B : Type 0} {base mid good bad : List Resource} {r : Ended A} {f : A → M B}
    → Settled base mid bad r
    → ((a : A) → Runs mid (f a) good bad)
    → Settled base good bad (continue r f)
Settled-continue (settled {a} {log} e) k = (k a).ends _ log e
Settled-continue (gave_up e) k = gave_up e

pub Runs-bind :
    {A B : Type 0} {h mid good bad : List Resource} {m : M A} {f : A → M B}
    → Runs h m mid bad
    → ((a : A) → Runs mid (f a) good bad)
    → Runs h (m >>= f) good bad
unfolding ◌>>=◌
Runs-bind p k = record { ends = λ base log e. Settled-continue (p.ends base log e) k }

Settled-drop :
    {A : Type 0} {base good bad left : List Resource} (r : Resource) {t : Ended A}
    → remove r bad ≡ some left
    → Settled base good bad t
    → Settled base good left (drop_on_exit r t)
Settled-drop r e (settled p) = settled p
Settled-drop r e (gave_up p) = gave_up (rw (p, e) refl)

pub Runs-owning :
    {A : Type 0} {h good bad left : List Resource} {m : M A} (r : Resource)
    → remove r bad ≡ some left
    → Runs h m good bad
    → Runs h (owning r m) good left
unfolding owning
Runs-owning r e p = record { ends = λ base log q. Settled-drop r e (p.ends base log q) }

Settled-afterwards :
    {A : Type 0} {base good bad good' bad' : List Resource} (r : Resource) {t : Ended A}
    → remove r good ≡ some good'
    → remove r bad ≡ some bad'
    → Settled base good bad t
    → Settled base good' bad' (end_with r t)
Settled-afterwards r e f (settled p) = settled (rw (p, e) refl)
Settled-afterwards r e f (gave_up p) = gave_up (rw (p, f) refl)

pub Runs-afterwards :
    {A : Type 0} {h good bad good' bad' : List Resource} {m : M A} (r : Resource)
    → remove r good ≡ some good'
    → remove r bad ≡ some bad'
    → Runs h m good bad
    → Runs h (afterwards r m) good' bad'
unfolding afterwards
Runs-afterwards r e f p = record {
  ends = λ base log q. Settled-afterwards r e f (p.ends base log q);
}

Settled-exit :
    {A : Type 0} {base good bad good' bad' : List Resource} (r : Resource) {t : Ended A}
    → remove r good ≡ some good'
    → remove r bad ≡ some bad'
    → Settled base good bad t
    → Settled base good' bad' (exit_with r t)
Settled-exit r e f (settled p) = settled (rw (p, e) refl)
Settled-exit r e f (gave_up p) = gave_up (rw (p, f) refl)

pub Runs-scoped :
    {A : Type 0} {h good bad good' bad' : List Resource} {m : M A} (r : Resource)
    → remove r good ≡ some good'
    → remove r bad ≡ some bad'
    → Runs h m good bad
    → Runs h (scoped r m) good' bad'
unfolding scoped
Runs-scoped r e f p = record { ends = λ base log q. Settled-exit r e f (p.ends base log q) }

Settled-recover :
    {A B : Type 0} {base mid good bad : List Resource} {t : Ended A} (g : ℤ → B) {f : A → M B}
    → Settled base mid good t
    → ((a : A) → Runs mid (f a) good bad)
    → Settled base good bad (recover_with t g f)
Settled-recover g (settled {a} {log} e) k = (k a).ends _ log e
Settled-recover g (gave_up e) k = settled e

pub Runs-recover :
    {A B : Type 0} {h mid good bad : List Resource} {m : M A} (g : ℤ → B) {f : A → M B}
    → Runs h m mid good
    → ((a : A) → Runs mid (f a) good bad)
    → Runs h (recover m g f) good bad
unfolding recover
Runs-recover g p k = record { ends = λ base log e. Settled-recover g (p.ends base log e) k }
