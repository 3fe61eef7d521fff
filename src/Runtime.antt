-- ===== src/Runtime.antt =====
-- ext/aws_crt/src/runtime.rs: the CRT objects that the whole process shares.
pub mod Started
pub mod Tests
use aws_crt.Prelude.{Bool, Option, [], if◌then◌else◌, none, some, true, ℕ, ◌%◌, ◌^◌, ◌∷◌}
use aws_crt.Prelude.Int.{ℤ}
use aws_crt.Crt.Resource.{client_bootstrap, event_loop_group, host_resolver}
use aws_crt.Crt.Action.{
  Ended, M, create, destroy, fail, failed, panicked, pure, returned, ◌>>=◌, ◌>>◌,
}

-- The settings of the event loop group and of the resolver; the objects are those of the log.
pub record CrtRuntime : Type 0 where
  pub loop_count : ℕ
  pub max_entries : ℕ

-- The answers of the CRT to init. `available_parallelism` is the standard library's.
pub record RuntimeAnswers : Type 0 where
  pub available_parallelism : Option ℕ
  pub event_loop_group_made : Bool
  pub host_resolver_made : Bool
  pub client_bootstrap_made : Bool
  pub last_error : ℤ

-- `as u16`, and one thread where the number is not known.
abbrev pub num_threads : Option ℕ → ℕ
num_threads none = 1
num_threads (some n) = n % 2 ^ 16

unfoldable pub init : RuntimeAnswers → M CrtRuntime
init a = do
  create event_loop_group [] (a.event_loop_group_made) (a.last_error)
  (if a.host_resolver_made
      then create host_resolver (event_loop_group ∷ []) true (a.last_error)
      else (do destroy event_loop_group; fail (a.last_error)))
  (if a.client_bootstrap_made
      then create client_bootstrap (event_loop_group ∷ host_resolver ∷ []) true (a.last_error)
      else (do destroy host_resolver; destroy event_loop_group; fail (a.last_error)))
  pure (record { loop_count = num_threads (a.available_parallelism); max_entries = 64 })

abbrev pub or_panic : {A : Type 0} → Ended A → Ended A
or_panic (returned a log) = returned a log
or_panic (failed code log) = panicked log
or_panic (panicked log) = panicked log

-- The cell RUNTIME is `none` until an initialization succeeds; one that panics leaves it so.
unfoldable pub get : RuntimeAnswers → Option CrtRuntime → M CrtRuntime
get a (some rt) log = returned rt log
get a none log = or_panic (init a log)

-- The cell after a call of get.
abbrev pub cell_after : Option CrtRuntime → Ended CrtRuntime → Option CrtRuntime
cell_after cell (returned rt log) = some rt
cell_after cell (failed code log) = cell
cell_after cell (panicked log) = cell
