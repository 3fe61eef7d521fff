-- ===== src/Runtime/Tests.antt =====
-- Calls of CrtRuntime::get in ext/aws_crt/src/runtime.rs.
use aws_crt.Prelude.{Bool, List, [], false, none, refl, some, true, ◌∷◌, ◌≡◌}
use aws_crt.Prelude.Int.{pos}
use aws_crt.Crt.Resource.{acquire, client_bootstrap, event_loop_group, host_resolver, release}
use aws_crt.Crt.Action.{create, destroy, fail, pure, ◌>>=◌}
use aws_crt.Runtime.{RuntimeAnswers, get, init}
use aws_crt.Runtime.Started.{Holds, gets, gets-Holds}

abbrev answers : Bool → RuntimeAnswers
answers works = record {
  available_parallelism = some 65540;
  event_loop_group_made = true;
  host_resolver_made = works;
  client_bootstrap_made = true;
  last_error = pos 1;
}

-- The first call fails at the resolver, the second succeeds.
abbrev calls : List RuntimeAnswers
calls = answers false ∷ answers true ∷ answers false ∷ []

gets-Holds_example : Holds ((gets calls none []).0) ((gets calls none []).1)
gets-Holds_example = gets-Holds calls

got : gets calls none [] ≡ (
  some (record { loop_count = 4; max_entries = 64 }),
  acquire client_bootstrap (event_loop_group ∷ host_resolver ∷ [])
      ∷ acquire host_resolver (event_loop_group ∷ [])
      ∷ acquire event_loop_group []
      ∷ release event_loop_group
      ∷ acquire event_loop_group []
      ∷ [],
)
unfolding gets get init ◌>>=◌ create destroy pure fail
got = refl
