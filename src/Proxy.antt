-- ===== src/Proxy.antt =====
-- ext/aws_crt/src/proxy.rs, and the proxy settings that ext/aws_crt/src/connection_manager.rs makes of it
-- for the CRT.
use aws_crt.Prelude.{List, Option, [], if◌then◌else◌, none, not, some, ℕ}
use aws_crt.Prelude.Int.{pos}
use aws_crt.Crt.Action.{M, check, has_nul, pure, ◌>>◌}

pub data ProxyAuthType : Type 0 where
  no_auth : ProxyAuthType
  basic : ProxyAuthType

pub record ProxyOptions : Type 0 where
  pub host : List ℕ
  pub port : ℕ
  pub auth_type : ProxyAuthType
  pub auth_username : Option (List ℕ)
  pub auth_password : Option (List ℕ)

-- A null cursor is the empty text.
pub record AwsHttpProxyOptions : Type 0 where
  pub connection_type : ℕ
  pub host : List ℕ
  pub port : ℕ
  pub auth_type : ℕ
  pub auth_username : List ℕ
  pub auth_password : List ℕ
  pub no_proxy_hosts : List ℕ

-- `CString::new(s.unwrap_or("")).unwrap_or_default()`.
unfoldable pub text_or_empty : Option (List ℕ) → List ℕ
text_or_empty none = []
text_or_empty (some s) = if has_nul s then [] else s

-- The authentication type with the user name and the password.
unfoldable pub auth_fields : ProxyOptions → ProxyAuthType → ℕ × List ℕ × List ℕ
auth_fields proxy no_auth = (0, [], [])
auth_fields proxy basic =
    (1, text_or_empty (proxy.auth_username), text_or_empty (proxy.auth_password))

unfoldable pub crt_proxy : ProxyOptions → AwsHttpProxyOptions
crt_proxy proxy =
    let fields = auth_fields proxy (proxy.auth_type) in
    record {
      connection_type = 0;
      host = proxy.host;
      port = proxy.port;
      auth_type = fields.0;
      auth_username = fields.1;
      auth_password = fields.2;
      no_proxy_hosts = [];
    }

unfoldable pub proxy_opts : Option ProxyOptions → M (Option AwsHttpProxyOptions)
proxy_opts none = pure none
proxy_opts (some proxy) = do
  check (not (has_nul (proxy.host))) (pos 0)
  pure (some (crt_proxy proxy))
