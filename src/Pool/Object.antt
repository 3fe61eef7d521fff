-- ===== src/Pool/Object.antt =====
-- The object AwsCrt::Http::ConnectionPool of ext/aws_crt/src/pool.rs.
pub mod Life
pub mod Repeated
pub mod Latest
use aws_crt.Prelude.{Bool, List, Option, none, some, ℕ}
use aws_crt.Crt.Action.{M, pure, ◌>>=◌, ◌>>◌}
use aws_crt.Http.State.{Header}
use aws_crt.Http.Build.{RequestOptions}
use aws_crt.Connection.{
  ConnectionManager, ConnectionManagerOptions, ManagerAnswers, drop_manager, new,
}
use aws_crt.Pool.Options.{
  Outcome, Ruby, argument_error, proxy_host_required, proxy_not_a_hash, raised, read_options, value,
}

-- `inner` is empty before initialize.
pub record ConnectionPool : Type 0 where
  pub inner : Option ConnectionManager
  pub read_timeout_ms : ℕ

unfoldable pub default_pool : ConnectionPool
default_pool = record { inner = none; read_timeout_ms = 0 }

abbrev pub drop_inner : Option ConnectionManager → M (Unit {0})
drop_inner none = pure tt
drop_inner (some c) = drop_manager c

-- The new manager takes the place of the old one, which is dropped.
unfoldable pub initialize_with :
    ManagerAnswers → ConnectionPool → ConnectionManagerOptions → ℕ → M ConnectionPool
initialize_with a rb_self opts read_timeout_ms = do
  cm ← new a opts
  drop_inner (rb_self.inner)
  pure (record { inner = some cm; read_timeout_ms = read_timeout_ms })

abbrev initialize_read :
    ManagerAnswers
    → ConnectionPool
    → Outcome (ConnectionManagerOptions × ℕ)
    → Outcome (M ConnectionPool)
initialize_read a rb_self (value (opts, timeout)) = value (initialize_with a rb_self opts timeout)
initialize_read a rb_self (argument_error e) = argument_error e
initialize_read a rb_self proxy_host_required = proxy_host_required
initialize_read a rb_self proxy_not_a_hash = proxy_not_a_hash
initialize_read a rb_self (raised m) = raised m

-- Reading the arguments may raise; what is done with the CRT then fails with a CrtError.
unfoldable pub rb_initialize :
    {Value Hash : Type 0}
    → Ruby Value Hash
    → ManagerAnswers
    → ConnectionPool
    → List ℕ
    → Hash
    → Outcome (M ConnectionPool)
rb_initialize ruby a rb_self text options =
    initialize_read a rb_self (read_options ruby text options)

-- The arguments of request as http.rs takes them; `none` is the exception of an object without a
-- manager. Each header is a pair of strings, and `as_ptr` names the manager's pointer.
unfoldable pub request_options :
    (ConnectionManager → ℕ)
    → ConnectionPool
    → List ℕ
    → List ℕ
    → List Header
    → Option (List ℕ)
    → Bool
    → Option RequestOptions
request_options as_ptr rb_self method path headers body block = elim (rb_self.inner) [
  | none ↦ none
  | some cm ↦ some (record {
    manager = as_ptr cm;
    method = method;
    path = path;
    headers = headers;
    body = body;
    streaming = block;
    read_timeout_ms = rb_self.read_timeout_ms;
  })
]
