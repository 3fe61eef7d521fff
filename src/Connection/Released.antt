-- ===== src/Connection/Released.antt =====
-- What a connection manager of ext/aws_crt/src/connection_manager.rs holds.
use aws_crt.Prelude.{Bool, List, Option, none, not, refl, some, true, ◌∷◌, ◌≡◌}
use aws_crt.Crt.Resource.{
  Call, Resource, client_bootstrap, connection_manager, elem, tls_connection_options, tls_ctx,
}
use aws_crt.Crt.Action.{has_nul, pure, ◌>>=◌}
use aws_crt.Crt.Runs.{
  Runs, Runs-afterwards, Runs-bind, Runs-check_or, Runs-create, Runs-destroy, Runs-fine, Runs-made,
  Runs-owning, Runs-pure,
}
use aws_crt.Crt.Yields.{Runs-bind-Yields, Yields, Yields-afterwards, Yields-bind, Yields-owning}
use aws_crt.Tls.{TlsContext, TlsOptions, drop_tls_context}
use aws_crt.Tls.Released.{new_tls_context-Runs}
use aws_crt.Proxy.{ProxyOptions, proxy_opts}
use aws_crt.Connection.{
  ConnectionManager, ConnectionManagerOptions, ManagerAnswers, drop_manager, new, new_for,
  new_manager, with_tls,
}

-- No zero byte in the host of the proxy.
abbrev pub proxy_fits : Option ProxyOptions → Bool
proxy_fits none = true
proxy_fits (some proxy) = not (has_nul (proxy.host))

-- The settings of the proxy take nothing.
proxy_opts-Runs :
    {h bad : List Resource} (proxy : Option ProxyOptions)
    → proxy_fits proxy ≡ true
    → Runs h (proxy_opts proxy) h bad
unfolding proxy_opts
proxy_opts-Runs none fits = Runs-pure none
proxy_opts-Runs (some proxy) fits = Runs-bind (Runs-fine _ _ fits) (λ _. Runs-pure _)

abbrev pub held_by : Option TlsOptions → List Resource → List Resource
held_by none h = connection_manager ∷ h
held_by (some tls) h = connection_manager ∷ tls_ctx ∷ h

module _ {h : List Resource} (a : ManagerAnswers) (opts : ConnectionManagerOptions) where
  with_tls-Runs :
      (ctx : TlsContext)
      → elem client_bootstrap h ≡ true
      → proxy_fits (opts.proxy_options) ≡ true
      → Runs (tls_ctx ∷ h) (with_tls a opts ctx) (connection_manager ∷ tls_ctx ∷ h) (tls_ctx ∷ h)
  unfolding with_tls new_manager
  with_tls-Runs ctx started fits = Runs-bind (Runs-made tls_connection_options _ _ refl) (λ _.
      Runs-bind (Runs-check_or _ tls_connection_options _ refl) (λ _.
        Runs-bind (proxy_opts-Runs (opts.proxy_options) fits) (λ proxy.
          Runs-afterwards tls_connection_options refl refl (
            Runs-bind (Runs-create connection_manager _ _ _ (rw started refl))
              (λ _. Runs-pure _)))))

  new_for-Runs :
      (tls : Option TlsOptions)
      → elem client_bootstrap h ≡ true
      → proxy_fits (opts.proxy_options) ≡ true
      → Runs h (new_for a opts tls) (held_by tls h) h
  unfolding new_for new_manager
  new_for-Runs none started fits = Runs-bind (proxy_opts-Runs (opts.proxy_options) fits) (λ proxy.
      Runs-bind (Runs-create connection_manager _ _ _ (rw started refl)) (λ _. Runs-pure _))
  new_for-Runs (some tls) started fits =
      Runs-bind (new_tls_context-Runs (a.tls) tls)
        (λ ctx. Runs-owning tls_ctx refl (with_tls-Runs ctx started fits))

  -- Where the host of the proxy has no zero byte, ConnectionManager::new holds the manager, and the TLS
  -- context when the endpoint has one, once it has returned one; when it fails, at whichever step, it
  -- holds nothing. It uses no pointer to what is not held.
  pub new-Runs :
      elem client_bootstrap h ≡ true
      → proxy_fits (opts.proxy_options) ≡ true
      → Runs h (new a opts) (held_by (opts.tls_options) h) h
  unfolding new
  new-Runs started fits = new_for-Runs (opts.tls_options) started fits

-- A manager owns a TLS context when its endpoint has TLS.
abbrev pub Fits : Option TlsOptions → ConnectionManager → Type 0
Fits none c = c.owned_tls_ctx ≡ none
Fits (some tls) c = (ctx : TlsContext) × (c.owned_tls_ctx ≡ some ctx)

pub new-Fits :
    (a : ManagerAnswers) (opts : ConnectionManagerOptions) (tls : Option TlsOptions)
    (log : List Call)
    → Yields (Fits tls) (new_for a opts tls log)
unfolding new_for with_tls new_manager pure
new-Fits a opts none log =
    Yields-bind (Fits none) _ _ (λ proxy. Yields-bind (Fits none) _ _ (λ done log. refl)) log
new-Fits a opts (some tls) log =
    let P = Fits (some tls) in
    Yields-bind P _ _
      (λ ctx. Yields-owning P tls_ctx _ (
        Yields-bind P _ _ (λ _. Yields-bind P _ _ (λ _. Yields-bind P _ _ (λ proxy.
          Yields-afterwards P tls_connection_options _
            (Yields-bind P _ _ (λ _ log. (ctx, refl))))))))
      log

pub drop_manager-Runs :
    {h bad : List Resource} (tls : Option TlsOptions) (c : ConnectionManager)
    → Fits tls c
    → Runs (held_by tls h) (drop_manager c) h bad
unfolding drop_manager drop_tls_context
drop_manager-Runs none c e =
    Runs-bind (Runs-destroy connection_manager refl) (λ _. rw e (Runs-pure tt))
drop_manager-Runs (some tls) c (ctx, e) =
    Runs-bind (Runs-destroy connection_manager refl) (λ _. rw e (Runs-destroy tls_ctx refl))

-- Where the client bootstrap is held and the host of the proxy has no zero byte, a manager that is made
-- and dropped leaves nothing held, whether or not it could be made.
pub new_then_drop :
    {h : List Resource} (a : ManagerAnswers) (opts : ConnectionManagerOptions)
    → elem client_bootstrap h ≡ true
    → proxy_fits (opts.proxy_options) ≡ true
    → Runs h (new a opts >>= drop_manager) h h
unfolding new
new_then_drop a opts started fits =
    Runs-bind-Yields (Fits (opts.tls_options)) (new_for-Runs a opts (opts.tls_options) started fits)
      (new-Fits a opts (opts.tls_options)) (drop_manager-Runs (opts.tls_options))
