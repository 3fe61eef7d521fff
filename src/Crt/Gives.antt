-- ===== src/Crt/Gives.antt =====
-- Rules for the value that a function of ext/aws_crt/src returns, whatever the log.
use aws_crt.Prelude.{Bool, List, false, if◌then◌else◌, refl, true, ◌&&◌, ◌∙◌, ◌≡◌}
use aws_crt.Prelude.Int.{ℤ}
use aws_crt.Crt.Resource.{Call, Resource}
use aws_crt.Crt.Action.{
  Ended, M, check, check_or, continue, create, destroy, drop_on_exit, exit_with, expect, failed,
  owning, panicked, pure, recover, recover_with, returned, scoped, ◌>>=◌,
}

pub data Result (A : Type 0) : Type 0 where
  gave : A → Result A
  refused : ℤ → Result A
  aborted : Result A

abbrev pub result_of : {A : Type 0} → Ended A → Result A
result_of (returned a log) = gave a
result_of (failed code log) = refused code
result_of (panicked log) = aborted

abbrev pub guarded : {A : Type 0} → Bool → A → ℤ → Result A
guarded b a code = if b then gave a else refused code

-- m returns a where b holds, and fails with the code where it does not.
pub record Gives {A : Type 0} (m : M A) (b : Bool) (a : A) (code : ℤ) : Type 0 where
  pub ends : (log : List Call) → result_of (m log) ≡ guarded b a code

pub Gives-pure : {A : Type 0} {code : ℤ} (a : A) → Gives (pure a) true a code
unfolding pure
Gives-pure a = record { ends = λ log. refl }

pub Gives-create :
    {code : ℤ} (r : Resource) (needs : List Resource) (made : Bool)
    → Gives (create r needs made code) made tt code
unfolding create
Gives-create r needs true = record { ends = λ log. refl }
Gives-create r needs false = record { ends = λ log. refl }

-- A constructor that is known to succeed fails with no code.
pub Gives-made :
    {code : ℤ} (r : Resource) (needs : List Resource) (other : ℤ)
    → Gives (create r needs true other) true tt code
unfolding create
Gives-made r needs other = record { ends = λ log. refl }

pub Gives-destroy : {code : ℤ} (r : Resource) → Gives (destroy r) true tt code
unfolding destroy
Gives-destroy r = record { ends = λ log. refl }

pub Gives-check : {code : ℤ} (fine : Bool) → Gives (check fine code) fine tt code
unfolding check
Gives-check true = record { ends = λ log. refl }
Gives-check false = record { ends = λ log. refl }

pub Gives-check_or :
    {code : ℤ} (fine : Bool) (r : Resource) → Gives (check_or fine r code) fine tt code
unfolding check_or
Gives-check_or true r = record { ends = λ log. refl }
Gives-check_or false r = record { ends = λ log. refl }

pub Gives-expect : {code : ℤ} (fine : Bool) → fine ≡ true → Gives (expect fine) true tt code
unfolding expect
Gives-expect true e = record { ends = λ log. refl }
Gives-expect false e = cc

Gives-continue :
    {A B : Type 0} (b : Bool) {c : Bool} {v : A} {w : B} {code : ℤ} (f : A → M B) (t : Ended A)
    → result_of t ≡ guarded b v code
    → Gives (f v) c w code
    → result_of (continue t f) ≡ guarded (b && c) w code
Gives-continue true f (returned a log) e k = let same : a ≡ _ = cc in rw same (k.ends log)
Gives-continue false f (returned a log) e k = cc
Gives-continue true f (failed other log) e k = cc
Gives-continue false f (failed other log) e k = cc
Gives-continue true f (panicked log) e k = cc
Gives-continue false f (panicked log) e k = cc

pub Gives-bind :
    {A B : Type 0} {b c : Bool} {v : A} {w : B} {code : ℤ} {m : M A} (f : A → M B)
    → Gives m b v code
    → Gives (f v) c w code
    → Gives (m >>= f) (b && c) w code
unfolding ◌>>=◌
Gives-bind f p k = record { ends = λ log. Gives-continue _ f _ (p.ends log) k }

Gives-recover_with :
    {A B : Type 0} (b : Bool) {v : A} {w : B} (code : ℤ) {other : ℤ} (g : ℤ → B) (f : A → M B)
    (t : Ended A)
    → result_of t ≡ guarded b v code
    → Gives (f v) true w other
    → result_of (recover_with t g f) ≡ gave (if b then w else g code)
Gives-recover_with true code g f (returned a log) e k =
    let same : a ≡ _ = cc in rw same (k.ends log)
Gives-recover_with false code g f (returned a log) e k = cc
Gives-recover_with true code g f (failed c log) e k = cc
Gives-recover_with false code g f (failed c log) e k = let same : c ≡ _ = cc in rw same refl
Gives-recover_with true code g f (panicked log) e k = cc
Gives-recover_with false code g f (panicked log) e k = cc

pub Gives-recover :
    {A B : Type 0} {b : Bool} {v : A} {w : B} {code other : ℤ} {m : M A} (g : ℤ → B) (f : A → M B)
    → Gives m b v code
    → Gives (f v) true w other
    → Gives (recover m g f) true (if b then w else g code) other
unfolding recover
Gives-recover g f p k = record { ends = λ log. Gives-recover_with _ _ g f _ (p.ends log) k }

result_of-drop :
    {A : Type 0} (r : Resource) (t : Ended A) → result_of (drop_on_exit r t) ≡ result_of t
result_of-drop r (returned a log) = refl
result_of-drop r (failed code log) = refl
result_of-drop r (panicked log) = refl

pub Gives-owning :
    {A : Type 0} {b : Bool} {v : A} {code : ℤ} {m : M A} (r : Resource)
    → Gives m b v code
    → Gives (owning r m) b v code
unfolding owning
Gives-owning r p = record { ends = λ log. result_of-drop r _ ∙ p.ends log }

result_of-exit : {A : Type 0} (r : Resource) (t : Ended A) → result_of (exit_with r t) ≡ result_of t
result_of-exit r (returned a log) = refl
result_of-exit r (failed code log) = refl
result_of-exit r (panicked log) = refl

pub Gives-scoped :
    {A : Type 0} {b : Bool} {v : A} {code : ℤ} {m : M A} (r : Resource)
    → Gives m b v code
    → Gives (scoped r m) b v code
unfolding scoped
Gives-scoped r p = record { ends = λ log. result_of-exit r _ ∙ p.ends log }
