-- ===== src/Pool/Options.antt =====
-- The endpoint and the options of ConnectionPool.new in ext/aws_crt/src/pool.rs.
use aws_crt.Prelude.{Bool, List, Option, String, codes, if◌then◌else◌, none, some, true, ℕ, ◌^◌}
use aws_crt.Pool.Endpoint.{
  Endpoint, EndpointError, Scheme, endpoint, http, https, parse_endpoint, rejected,
}
use aws_crt.Proxy.{ProxyAuthType, ProxyOptions, basic, no_auth}
use aws_crt.Tls.{TlsOptions}
use aws_crt.Connection.{ConnectionManagerOptions}

-- A Ruby exception that a conversion or a lookup raised carries its message.
pub data Outcome (A : Type 0) : Type 0 where
  value : A → Outcome A
  argument_error : EndpointError → Outcome A
  proxy_host_required : Outcome A
  proxy_not_a_hash : Outcome A
  raised : String → Outcome A

infixl 5 ◌>>=◌
abbrev pub ◌>>=◌ : {A B : Type 0} → Outcome A → (A → Outcome B) → Outcome B
value a >>= f = f a
argument_error e >>= f = argument_error e
proxy_host_required >>= f = proxy_host_required
proxy_not_a_hash >>= f = proxy_not_a_hash
raised m >>= f = raised m

-- Ruby and magnus: the lookup of a symbol in a hash, which may raise, and the conversions of a value.
-- The unsigned ones refuse what their width does not hold.
pub record Ruby (Value Hash : Type 0) : Type 0 where
  pub lookup : Hash → List ℕ → Outcome (Option Value)
  pub is_nil : Value → Bool
  pub to_text : Value → Outcome (List ℕ)
  pub to_unsigned : ℕ → Value → Outcome ℕ
  pub to_bool : Value → Outcome Bool
  pub from_value : Value → Option Hash

abbrev pub auth_for : Option (List ℕ) → ProxyAuthType
auth_for none = no_auth
auth_for (some username) = basic

abbrev pub required_host : Option (List ℕ) → Outcome (List ℕ)
required_host none = proxy_host_required
required_host (some host) = value host

module _ {Value Hash : Type 0} (ruby : Ruby Value Hash) where
  -- A missing key and nil are the default.
  unfoldable pub or_default : {A : Type 0} → (Value → Outcome A) → A → Option Value → Outcome A
  or_default convert default none = value default
  or_default convert default (some v) = if ruby.is_nil v then value default else convert v

  unfoldable pub hash_get_string : Hash → List ℕ → Outcome (Option (List ℕ))
  hash_get_string hash key =
      ruby.lookup hash key >>= or_default (λ v. ruby.to_text v >>= λ s. value (some s)) none

  unfoldable pub hash_get_u32 : Hash → List ℕ → ℕ → Outcome ℕ
  hash_get_u32 hash key default =
      ruby.lookup hash key >>= or_default (ruby.to_unsigned (2 ^ 32)) default

  unfoldable pub hash_get_u64 : Hash → List ℕ → ℕ → Outcome ℕ
  hash_get_u64 hash key default =
      ruby.lookup hash key >>= or_default (ruby.to_unsigned (2 ^ 64)) default

  unfoldable pub hash_get_usize : Hash → List ℕ → ℕ → Outcome ℕ
  hash_get_usize hash key default =
      ruby.lookup hash key >>= or_default (ruby.to_unsigned (2 ^ 64)) default

  unfoldable pub hash_get_bool : Hash → List ℕ → Bool → Outcome Bool
  hash_get_bool hash key default = ruby.lookup hash key >>= or_default (ruby.to_bool) default

  unfoldable pub proxy_from_hash : Option Hash → Outcome (Option ProxyOptions)
  proxy_from_hash none = proxy_not_a_hash
  proxy_from_hash (some hash) = do
    found ← hash_get_string hash (codes "host")
    host ← required_host found
    port ← hash_get_u32 hash (codes "port") 8080
    username ← hash_get_string hash (codes "username")
    password ← hash_get_string hash (codes "password")
    value (
        some (record {
          host = host;
          port = port;
          auth_type = auth_for username;
          auth_username = username;
          auth_password = password;
        }))

  unfoldable pub parse_proxy_options : Hash → Outcome (Option ProxyOptions)
  parse_proxy_options opts =
      ruby.lookup opts (codes "proxy")
      >>= or_default (λ v. proxy_from_hash (ruby.from_value v)) none

  abbrev pub tls_for : Scheme → Bool → Option (List ℕ) → Option TlsOptions
  tls_for http verify_peer ca_filepath = none
  tls_for https verify_peer ca_filepath =
      some (record { verify_peer = verify_peer; ca_filepath = ca_filepath; alpn_list = none })

  -- The options in the order in which read_options reads them; the second part of the value is the
  -- read timeout that the pool keeps.
  unfoldable pub options_for : Hash → Endpoint → Outcome (ConnectionManagerOptions × ℕ)
  options_for opts (rejected e) = argument_error e
  options_for opts (endpoint scheme host port) = do
    max_connections ← hash_get_usize opts (codes "max_connections") 25
    max_connection_idle_ms ← hash_get_u64 opts (codes "max_connection_idle_ms") 60000
    connect_timeout_ms ← hash_get_u32 opts (codes "connect_timeout_ms") 60000
    read_timeout_ms ← hash_get_u64 opts (codes "read_timeout_ms") 0
    ssl_verify_peer ← hash_get_bool opts (codes "ssl_verify_peer") true
    ssl_ca_bundle ← hash_get_string opts (codes "ssl_ca_bundle")
    proxy ← parse_proxy_options opts
    value (
      record {
        host = host;
        port = port;
        max_connections = max_connections;
        max_connection_idle_ms = max_connection_idle_ms;
        connect_timeout_ms = connect_timeout_ms;
        tls_options = tls_for scheme ssl_verify_peer ssl_ca_bundle;
        proxy_options = proxy;
      },
      read_timeout_ms,
    )

  unfoldable pub read_options : List ℕ → Hash → Outcome (ConnectionManagerOptions × ℕ)
  read_options text opts = options_for opts (parse_endpoint text)
