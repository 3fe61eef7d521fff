-- ===== src/Pool/Object/Life.antt =====
-- What an AwsCrt::Http::ConnectionPool of ext/aws_crt/src/pool.rs holds, and the requests that it makes.
use aws_crt.Prelude.{List, refl, some, true, ℕ, ◌≡◌}
use aws_crt.Crt.Resource.{Call, Resource, client_bootstrap, elem}
use aws_crt.Crt.Action.{pure, ◌>>=◌}
use aws_crt.Crt.Runs.{Runs, Runs-bind, Runs-pure}
use aws_crt.Crt.Yields.{Runs-bind-Yields, Yields, Yields-bind, Yields-bind_with}
use aws_crt.Connection.{ConnectionManager, ConnectionManagerOptions, ManagerAnswers, new}
use aws_crt.Connection.Released.{Fits, drop_manager-Runs, held_by, new-Fits, new-Runs, proxy_fits}
use aws_crt.Pool.Object.{ConnectionPool, default_pool, drop_inner, initialize_with}

-- The manager that initialize stores.
abbrev pub Stored : ConnectionManagerOptions → ConnectionPool → Type 0
Stored opts pool = (cm : ConnectionManager) × (pool.inner ≡ some cm) × Fits (opts.tls_options) cm

module _ {h : List Resource} (a : ManagerAnswers) (opts : ConnectionManagerOptions)
    (timeout : ℕ) where
  initialize-Runs :
      elem client_bootstrap h ≡ true
      → proxy_fits (opts.proxy_options) ≡ true
      → Runs h (initialize_with a default_pool opts timeout) (held_by (opts.tls_options) h) h
  unfolding initialize_with default_pool
  initialize-Runs started fits =
      Runs-bind (new-Runs a opts started fits) (λ cm. Runs-bind (Runs-pure tt) (λ _. Runs-pure _))

pub initialize-Stored :
    (a : ManagerAnswers) (rb_self : ConnectionPool) (opts : ConnectionManagerOptions) (timeout : ℕ)
    (log : List Call)
    → Yields (Stored opts) (initialize_with a rb_self opts timeout log)
unfolding initialize_with new pure
initialize-Stored a rb_self opts timeout log =
    Yields-bind_with (Fits (opts.tls_options)) (Stored opts) _ _
      (new-Fits a opts (opts.tls_options))
      (λ cm f. Yields-bind (Stored opts) (drop_inner (rb_self.inner)) _ (λ _ log. (cm, refl, f)))
      log

-- Where the client bootstrap is held and the host of the proxy has no zero byte, a pool that
-- ConnectionPool.new makes and that is then collected leaves nothing held, whether or not it could be made.
initialize_then_collect :
    {h : List Resource} (a : ManagerAnswers) (opts : ConnectionManagerOptions) (timeout : ℕ)
    → elem client_bootstrap h ≡ true
    → proxy_fits (opts.proxy_options) ≡ true
    → Runs h (initialize_with a default_pool opts timeout >>= λ pool. drop_inner (pool.inner)) h h
initialize_then_collect a opts timeout started fits =
    Runs-bind-Yields (Stored opts) (initialize-Runs a opts timeout started fits)
      (initialize-Stored a default_pool opts timeout)
      (λ pool s. rw (s.1) (drop_manager-Runs (opts.tls_options) (s.0) (s.2)))
