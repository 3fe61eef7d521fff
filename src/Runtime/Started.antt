-- ===== src/Runtime/Started.antt =====
-- The runtime of ext/aws_crt/src/runtime.rs is made once, or not at all.
use aws_crt.Prelude.{List, Option, [], none, refl, some, ◌∷◌, ◌≡◌}
use aws_crt.Crt.Resource.{Call, Resource, client_bootstrap, event_loop_group, host_resolver, replay}
use aws_crt.Crt.Action.{Ended, log_of}
use aws_crt.Crt.Runs.{
  Runs, Runs-bind, Runs-create, Runs-destroy, Runs-fail, Runs-if, Runs-made, Runs-pure, Settled,
  gave_up, settled,
}
use aws_crt.Runtime.{CrtRuntime, RuntimeAnswers, cell_after, get, init, or_panic}

-- What the runtime holds.
abbrev pub shared : List Resource
shared = client_bootstrap ∷ host_resolver ∷ event_loop_group ∷ []

-- init holds the three objects when it succeeds, and nothing when it fails at any of them.
pub init-Runs : (a : RuntimeAnswers) → Runs [] (init a) shared []
unfolding init
init-Runs a = Runs-bind (Runs-create event_loop_group [] _ _ refl) (λ _.
    Runs-bind
      (Runs-if (a.host_resolver_made) (Runs-made host_resolver _ _ refl)
        (Runs-bind (Runs-destroy event_loop_group refl) (λ _. Runs-fail _)))
      (λ _.
        Runs-bind
          (Runs-if (a.client_bootstrap_made) (Runs-made client_bootstrap _ _ refl) (
            Runs-bind (Runs-destroy host_resolver refl)
              (λ _. Runs-bind (Runs-destroy event_loop_group refl) (λ _. Runs-fail _))))
          (λ _. Runs-pure _)))

-- The calls of get from anywhere in the program, each with its own answers of the CRT: the cell and the
-- log after them. A call that panics leaves the program running.
unfoldable pub gets :
    List RuntimeAnswers → Option CrtRuntime → List Call → Option CrtRuntime × List Call
gets [] cell log = (cell, log)
gets (a ∷ rest) cell log = let e = get a cell log in gets rest (cell_after cell e) (log_of e)

-- Nothing is held while the cell is empty, and the three objects once it is not.
abbrev pub Holds : Option CrtRuntime → List Call → Type 0
Holds none log = replay [] log ≡ some []
Holds (some rt) log = replay [] log ≡ some shared

get-Holds :
    (a : RuntimeAnswers) (cell : Option CrtRuntime) (log : List Call)
    → Holds cell log
    → Holds (cell_after cell (get a cell log)) (log_of (get a cell log))
unfolding get
get-Holds a (some rt) log h = h
get-Holds a none log h = settled-Holds ((init-Runs a).ends [] log h)
  where
    settled-Holds :
        {t : Ended CrtRuntime}
        → Settled [] shared [] t
        → Holds (cell_after none (or_panic t)) (log_of (or_panic t))
    settled-Holds (settled p) = p
    settled-Holds (gave_up p) = p

gets_from :
    (rest : List RuntimeAnswers) (cell : Option CrtRuntime) (log : List Call)
    → Holds cell log
    → Holds ((gets rest cell log).0) ((gets rest cell log).1)
unfolding gets
gets_from [] cell log h = h
gets_from (a ∷ rest) cell log h = gets_from rest _ _ (get-Holds a cell log h)

-- However often and with whatever answers get is called: as long as the cell is empty nothing is held,
-- and from the first success on the three shared objects are held, once each.
pub gets-Holds :
    (rest : List RuntimeAnswers) → Holds ((gets rest none []).0) ((gets rest none []).1)
gets-Holds rest = gets_from rest none [] refl
