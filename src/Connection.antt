-- ===== src/Connection.antt =====
-- ext/aws_crt/src/connection_manager.rs: the pool of connections to one endpoint. The runtime of the
-- process has been obtained: its client bootstrap is held.
pub mod Released
pub mod Leaks
pub mod Tests
use aws_crt.Prelude.{Bool, List, Option, [], false, none, some, true, ℕ, ◌-◌, ◌^◌, ◌∷◌}
use aws_crt.Prelude.Int.{ℤ}
use aws_crt.Crt.Resource.{
  Resource, client_bootstrap, connection_manager, tls_connection_options, tls_ctx,
}
use aws_crt.Crt.Action.{M, afterwards, check_or, create, destroy, owning, pure, ◌>>=◌, ◌>>◌}
use aws_crt.Tls.{TlsAnswers, TlsContext, TlsOptions, drop_tls_context, new_tls_context}
use aws_crt.Proxy.{AwsHttpProxyOptions, ProxyOptions, proxy_opts}

pub record ConnectionManagerOptions : Type 0 where
  pub host : List ℕ
  pub port : ℕ
  pub max_connections : ℕ
  pub max_connection_idle_ms : ℕ
  pub connect_timeout_ms : ℕ
  pub tls_options : Option TlsOptions
  pub proxy_options : Option ProxyOptions

unfoldable pub default_options : ConnectionManagerOptions
default_options = record {
  host = [];
  port = 443;
  max_connections = 25;
  max_connection_idle_ms = 60000;
  connect_timeout_ms = 60000;
  tls_options = none;
  proxy_options = none;
}

pub record AwsSocketOptions : Type 0 where
  pub socket_type : ℕ
  pub domain : ℕ
  pub impl_type : ℕ
  pub connect_timeout_ms : ℕ
  pub keep_alive_interval_sec : ℕ
  pub keep_alive_timeout_sec : ℕ
  pub keep_alive_max_failed_probes : ℕ
  pub keepalive : Bool

-- The structure that the CRT makes the manager of, without the pointers that are always null and the
-- settings of HTTP/2. TLS is on when it has a pointer to connection options.
pub record AwsHttpConnectionManagerOptions : Type 0 where
  pub initial_window_size : ℕ
  pub socket_options : AwsSocketOptions
  pub response_first_byte_timeout_ms : ℕ
  pub tls_connection_options : Option TlsContext
  pub http2_prior_knowledge : Bool
  pub host : List ℕ
  pub port : ℕ
  pub proxy_options : Option AwsHttpProxyOptions
  pub max_connections : ℕ
  pub enable_read_back_pressure : Bool
  pub max_connection_idle_in_milliseconds : ℕ
  pub connection_acquisition_timeout_ms : ℕ
  pub max_pending_connection_acquisitions : ℕ

unfoldable pub cm_options :
    ConnectionManagerOptions
    → Option TlsContext
    → Option AwsHttpProxyOptions
    → AwsHttpConnectionManagerOptions
cm_options opts ctx proxy = record {
  initial_window_size = 2 ^ 64 - 1;
  socket_options = record {
    socket_type = 0;
    domain = 0;
    impl_type = 0;
    connect_timeout_ms = opts.connect_timeout_ms;
    keep_alive_interval_sec = 0;
    keep_alive_timeout_sec = 0;
    keep_alive_max_failed_probes = 0;
    keepalive = false;
  };
  response_first_byte_timeout_ms = 0;
  tls_connection_options = ctx;
  http2_prior_knowledge = false;
  host = opts.host;
  port = opts.port;
  proxy_options = proxy;
  max_connections = opts.max_connections;
  enable_read_back_pressure = false;
  max_connection_idle_in_milliseconds = opts.max_connection_idle_ms;
  connection_acquisition_timeout_ms = opts.connect_timeout_ms;
  max_pending_connection_acquisitions = 0;
}

-- The manager is what the CRT made it of.
pub record ConnectionManager : Type 0 where
  pub manager : AwsHttpConnectionManagerOptions
  pub owned_tls_ctx : Option TlsContext

-- The CRT's answers.
pub record ManagerAnswers : Type 0 where
  pub tls : TlsAnswers
  pub set_server_name : List ℕ → Bool
  pub manager_made : AwsHttpConnectionManagerOptions → Bool
  pub last_error : ℤ

-- What the manager's pointers need.
abbrev pub manager_needs : Option TlsContext → List Resource
manager_needs none = client_bootstrap ∷ []
manager_needs (some ctx) = client_bootstrap ∷ tls_connection_options ∷ []

unfoldable pub new_manager :
    ManagerAnswers
    → ConnectionManagerOptions
    → Option TlsContext
    → Option AwsHttpProxyOptions
    → M ConnectionManager
new_manager a opts ctx proxy =
    let options = cm_options opts ctx proxy in
    (do
      create connection_manager (manager_needs ctx) (a.manager_made options) (a.last_error)
      pure (record { manager = options; owned_tls_ctx = ctx }))

-- The steps from the TLS connection options on. They are cleaned up behind the call of the CRT, and
-- where the server name is refused.
unfoldable pub with_tls :
    ManagerAnswers → ConnectionManagerOptions → TlsContext → M ConnectionManager
with_tls a opts ctx = do
  create tls_connection_options (tls_ctx ∷ []) true (a.last_error)
  check_or (a.set_server_name (opts.host)) tls_connection_options (a.last_error)
  proxy ← proxy_opts (opts.proxy_options)
  afterwards tls_connection_options (new_manager a opts (some ctx) proxy)

unfoldable pub new_for :
    ManagerAnswers → ConnectionManagerOptions → Option TlsOptions → M ConnectionManager
new_for a opts none = do proxy ← proxy_opts (opts.proxy_options); new_manager a opts none proxy
new_for a opts (some tls_opts) = do
  ctx ← new_tls_context (a.tls) tls_opts
  owning tls_ctx (with_tls a opts ctx)

unfoldable pub new : ManagerAnswers → ConnectionManagerOptions → M ConnectionManager
new a opts = new_for a opts (opts.tls_options)

abbrev pub drop_owned : Option TlsContext → M (Unit {0})
drop_owned none = pure tt
drop_owned (some ctx) = drop_tls_context

-- The manager's own Drop, then the Drop of its fields.
unfoldable pub drop_manager : ConnectionManager → M (Unit {0})
drop_manager c = do destroy connection_manager; drop_owned (c.owned_tls_ctx)
