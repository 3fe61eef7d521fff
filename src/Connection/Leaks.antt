-- ===== src/Connection/Leaks.antt =====
-- The error path of ConnectionManager::new in ext/aws_crt/src/connection_manager.rs that releases less
-- than it took.
use aws_crt.Prelude.{List, [], refl, some, subst, sym, true, ◌∷◌, ◌≡◌}
use aws_crt.Crt.Resource.{Resource, tls_connection_options, tls_ctx, tls_ctx_options}
use aws_crt.Crt.Action.{has_nul}
use aws_crt.Crt.Runs.{Runs, Runs-afterwards, Runs-bind, Runs-made, Runs-owning, Runs-pure}
use aws_crt.Crt.Fails.{Fails, Runs-Fails, Runs-fine_or, Runs-refuse, Runs-stop, Runs-works}
use aws_crt.Tls.{TlsContext, configure_and_create, default_tls_options, new_tls_context, set_text}
use aws_crt.Proxy.{ProxyOptions, proxy_opts}
use aws_crt.Connection.{ConnectionManagerOptions, ManagerAnswers, new, new_for, with_tls}

proxy-refused :
    {h good : List Resource} (proxy : ProxyOptions)
    → has_nul (proxy.host) ≡ true
    → Runs h (proxy_opts (some proxy)) good h
unfolding proxy_opts
proxy-refused {good} proxy nul =
    Runs-bind {mid = good} (Runs-refuse _ _ (rw nul refl)) (λ _. Runs-pure _)

tls-made :
    {h bad : List Resource} (a : ManagerAnswers)
    → a.tls.ctx_made ≡ true
    → Runs h (new_tls_context (a.tls) default_tls_options) (tls_ctx ∷ h) bad
unfolding new_tls_context configure_and_create set_text default_tls_options
tls-made {bad} a made = Runs-bind (Runs-made tls_ctx_options [] _ refl) (λ _.
    Runs-afterwards {bad = tls_ctx_options ∷ bad} tls_ctx_options refl refl (
      Runs-bind (Runs-pure tt) (λ _.
        Runs-bind (Runs-pure tt)
          (λ _. Runs-bind (Runs-works tls_ctx _ _ _ made refl) (λ _. Runs-pure _)))))

module _ {h good : List Resource} (a : ManagerAnswers) (opts : ConnectionManagerOptions) where
  with_tls-refused :
      (ctx : TlsContext) (proxy : ProxyOptions)
      → opts.proxy_options ≡ some proxy
      → has_nul (proxy.host) ≡ true
      → a.set_server_name (opts.host) ≡ true
      → Runs (tls_ctx ∷ h) (with_tls a opts ctx) good (tls_connection_options ∷ tls_ctx ∷ h)
  unfolding with_tls
  with_tls-refused ctx proxy p nul named =
      Runs-bind (Runs-made tls_connection_options _ _ refl) (λ _.
        Runs-bind (Runs-fine_or _ tls_connection_options _ named)
          (λ _. Runs-stop _ (λ mid. rw p (proxy-refused proxy nul))))

  new-refused :
      (proxy : ProxyOptions)
      → opts.proxy_options ≡ some proxy
      → has_nul (proxy.host) ≡ true
      → a.tls.ctx_made ≡ true
      → a.set_server_name (opts.host) ≡ true
      → Runs h (new_for a opts (some default_tls_options)) good (tls_connection_options ∷ h)
  unfolding new_for
  new-refused proxy p nul made named =
      Runs-bind (tls-made a made)
        (λ ctx. Runs-owning tls_ctx refl (with_tls-refused ctx proxy p nul named))

-- A proxy whose host has a zero byte: where the CRT makes the TLS context and takes the server's name,
-- ConnectionManager::new with the default TLS options fails and leaves the TLS connection options held.
pub new-Fails :
    {h : List Resource} (a : ManagerAnswers) (opts : ConnectionManagerOptions)
    (proxy : ProxyOptions)
    → opts.tls_options ≡ some default_tls_options
    → opts.proxy_options ≡ some proxy
    → has_nul (proxy.host) ≡ true
    → a.tls.ctx_made ≡ true
    → a.set_server_name (opts.host) ≡ true
    → Fails h (new a opts) (tls_connection_options ∷ h)
unfolding new
new-Fails {h} a opts proxy t p nul made named =
    subst (λ tls. Fails h (new_for a opts tls) (tls_connection_options ∷ h)) (sym t)
      (Runs-Fails (λ good. new-refused a opts proxy p nul made named))
