-- ===== src/Connection/Tests.antt =====
-- Connection managers of ext/aws_crt/src/connection_manager.rs and TLS contexts of ext/aws_crt/src/tls.rs.
use aws_crt.Prelude.{List, [], codes, none, refl, some, true, ℕ, ◌∷◌, ◌≡◌}
use aws_crt.Prelude.Int.{pos}
use aws_crt.Crt.Resource.{
  acquire, client_bootstrap, release, tls_connection_options, tls_ctx, tls_ctx_options,
}
use aws_crt.Crt.Action.{afterwards, check, check_or, create, failed, has_nul, owning, pure, ◌>>=◌}
use aws_crt.Crt.Runs.{Runs}
use aws_crt.Crt.Fails.{Fails}
use aws_crt.Tls.{TlsAnswers, configure_and_create, default_tls_options, new_tls_context, set_text}
use aws_crt.Tls.Released.{new_tls_context-Runs}
use aws_crt.Proxy.{ProxyOptions, auth_fields, basic, crt_proxy, proxy_opts, text_or_empty}
use aws_crt.Connection.{
  ConnectionManagerOptions, ManagerAnswers, drop_manager, new, new_for, with_tls,
}
use aws_crt.Connection.Released.{new_then_drop}
use aws_crt.Connection.Leaks.{new-Fails}

abbrev pub tls_answers : TlsAnswers
tls_answers = record {
  override_default_trust_store = λ s. true;
  set_alpn_list = λ s. true;
  ctx_made = true;
  last_error = pos 1029;
}

abbrev pub answers : ManagerAnswers
answers = record {
  tls = tls_answers;
  set_server_name = λ s. true;
  manager_made = λ o. true;
  last_error = pos 1029;
}

abbrev proxy_of : List ℕ → ProxyOptions
proxy_of host = record {
  host = host;
  port = 8080;
  auth_type = basic;
  auth_username = some (1 ∷ 0 ∷ []);
  auth_password = none;
}

abbrev pub to_host : List ℕ → ConnectionManagerOptions
to_host proxy_host = record {
  host = codes "h";
  port = 443;
  max_connections = 25;
  max_connection_idle_ms = 60000;
  connect_timeout_ms = 1000;
  tls_options = some default_tls_options;
  proxy_options = some (proxy_of proxy_host);
}

new_tls_context-Runs_example :
    Runs
      (client_bootstrap ∷ [])
      (new_tls_context tls_answers default_tls_options)
      (tls_ctx ∷ client_bootstrap ∷ [])
      (client_bootstrap ∷ [])
new_tls_context-Runs_example = new_tls_context-Runs tls_answers default_tls_options

-- A zero byte in the host of the proxy: the TLS context is dropped, its connection options stay.
leaked :
    new answers (to_host (112 ∷ 0 ∷ [])) []
    ≡ failed (pos 0) (
        release tls_ctx
        ∷ acquire tls_connection_options (tls_ctx ∷ [])
        ∷ release tls_ctx_options
        ∷ acquire tls_ctx (tls_ctx_options ∷ [])
        ∷ acquire tls_ctx_options []
        ∷ [])
unfolding new new_for with_tls new_tls_context configure_and_create set_text default_tls_options
    proxy_opts has_nul ◌>>=◌ create check check_or afterwards owning pure
leaked = refl

-- A user name with a zero byte is taken for an empty one.
empty_user :
    crt_proxy (record {
      host = [];
      port = 1;
      auth_type = basic;
      auth_username = some (1 ∷ 0 ∷ []);
      auth_password = none;
    })
    ≡ record {
      connection_type = 0;
      host = [];
      port = 1;
      auth_type = 1;
      auth_username = [];
      auth_password = [];
      no_proxy_hosts = [];
    }
unfolding crt_proxy auth_fields text_or_empty has_nul
empty_user = refl

new_then_drop_example :
    Runs
      (client_bootstrap ∷ [])
      (new answers (to_host (112 ∷ [])) >>= drop_manager)
      (client_bootstrap ∷ [])
      (client_bootstrap ∷ [])
unfolding has_nul
new_then_drop_example = new_then_drop answers (to_host (112 ∷ [])) refl refl

new-Fails_example :
    Fails
      (client_bootstrap ∷ [])
      (new answers (to_host (112 ∷ 0 ∷ [])))
      (tls_connection_options ∷ client_bootstrap ∷ [])
unfolding has_nul
new-Fails_example =
    new-Fails answers (to_host (112 ∷ 0 ∷ [])) (proxy_of (112 ∷ 0 ∷ [])) refl refl refl refl refl
