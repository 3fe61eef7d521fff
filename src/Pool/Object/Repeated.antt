-- ===== src/Pool/Object/Repeated.antt =====
-- A ConnectionPool of ext/aws_crt/src/pool.rs that is initialized again and again.
use aws_crt.Prelude.{List, Option, [], none, refl, some, true, ℕ, ◌∷◌, ◌≡◌}
use aws_crt.Crt.Resource.{
  Call, Resource, client_bootstrap, connection_manager, elem, remove, replay, tls_ctx,
}
use aws_crt.Crt.Action.{Ended, M, failed, panicked, returned}
use aws_crt.Crt.Runs.{Runs, Runs-bind, Runs-destroy, Runs-pure, Settled, gave_up, settled}
use aws_crt.Crt.Yields.{Yields}
use aws_crt.Tls.{TlsContext, TlsOptions, drop_tls_context}
use aws_crt.Connection.{ConnectionManager, ConnectionManagerOptions, ManagerAnswers, drop_manager}
use aws_crt.Connection.Released.{Fits, held_by, new-Runs, proxy_fits}
use aws_crt.Pool.Options.{
  Outcome, Ruby, argument_error, proxy_host_required, proxy_not_a_hash, raised, read_options, value,
}
use aws_crt.Pool.Object.{
  ConnectionPool, drop_inner, initialize_read, initialize_with, rb_initialize,
}
use aws_crt.Pool.Object.Life.{Stored, initialize-Stored}

-- A call of initialize, and the CRT's answers to it.
pub record Initialize (Hash : Type 0) : Type 0 where
  pub answers : ManagerAnswers
  pub endpoint : List ℕ
  pub options : Hash

-- An error leaves the object as it was.
abbrev pub pool_after : ConnectionPool → Ended ConnectionPool → ConnectionPool × List Call
pool_after rb_self (returned new log) = (new, log)
pool_after rb_self (failed code log) = (rb_self, log)
pool_after rb_self (panicked log) = (rb_self, log)

abbrev pub after_initialize :
    ConnectionPool → List Call → Outcome (M ConnectionPool) → ConnectionPool × List Call
after_initialize rb_self log (value m) = pool_after rb_self (m log)
after_initialize rb_self log (argument_error e) = (rb_self, log)
after_initialize rb_self log proxy_host_required = (rb_self, log)
after_initialize rb_self log proxy_not_a_hash = (rb_self, log)
after_initialize rb_self log (raised m) = (rb_self, log)

abbrev ReadFits : Outcome (ConnectionManagerOptions × ℕ) → Type 0
ReadFits (value (opts, timeout)) = proxy_fits (opts.proxy_options) ≡ true
ReadFits (argument_error e) = Unit {0}
ReadFits proxy_host_required = Unit {0}
ReadFits proxy_not_a_hash = Unit {0}
ReadFits (raised m) = Unit {0}

module _ {Value Hash : Type 0} (ruby : Ruby Value Hash) where
  unfoldable pub initialize_all :
      List (Initialize Hash) → ConnectionPool → List Call → ConnectionPool × List Call
  initialize_all [] rb_self log = (rb_self, log)
  initialize_all (c ∷ cs) rb_self log =
      let next =
        after_initialize rb_self log
          (rb_initialize ruby (c.answers) rb_self (c.endpoint) (c.options)) in
      initialize_all cs (next.0) (next.1)

  -- No host of a proxy that is read of a hash has a zero byte.
  abbrev pub AllFit : List (Initialize Hash) → Type 0
  AllFit [] = Unit {0}
  AllFit (c ∷ cs) = ReadFits (read_options ruby (c.endpoint) (c.options)) × AllFit cs

-- One manager where the object has one, and one TLS context where the manager has one, over h. The two
-- stand in either order, since an earlier manager may be released in between.
pub data Holds (h : List Resource) : Option ConnectionManager → List Resource → Type 0 where
  nothing : Holds h none h
  plain :
      (c : ConnectionManager) → c.owned_tls_ctx ≡ none → Holds h (some c) (connection_manager ∷ h)
  secure :
      (c : ConnectionManager) (ctx : TlsContext)
      → c.owned_tls_ctx ≡ some ctx
      → Holds h (some c) (connection_manager ∷ tls_ctx ∷ h)
  swapped :
      (c : ConnectionManager) (ctx : TlsContext)
      → c.owned_tls_ctx ≡ some ctx
      → Holds h (some c) (tls_ctx ∷ connection_manager ∷ h)

-- What a log leaves held is what the object owns.
pub record Held (base h : List Resource) (x : ConnectionPool × List Call) : Type 0 where
  pub held : List Resource
  pub replays : replay base (x.1) ≡ some held
  pub owns : Holds h (x.0.inner) held

module _ {x y bad : List Resource} (c : ConnectionManager) where
  drop-plain :
      c.owned_tls_ctx ≡ none → remove connection_manager x ≡ some y → Runs x (drop_manager c) y bad
  unfolding drop_manager
  drop-plain e r = Runs-bind (Runs-destroy connection_manager r) (λ _. rw e (Runs-pure tt))

  drop-secure :
      {z : List Resource} (ctx : TlsContext)
      → c.owned_tls_ctx ≡ some ctx
      → remove connection_manager x ≡ some y
      → remove tls_ctx y ≡ some z
      → Runs x (drop_manager c) z bad
  unfolding drop_manager drop_tls_context
  drop-secure ctx e r t =
      Runs-bind (Runs-destroy connection_manager r) (λ _. rw e (Runs-destroy tls_ctx t))

-- A drop of the object's manager, with whatever answers, leaves h.
pub collected :
    {h held bad : List Resource} {inner : Option ConnectionManager}
    → Holds h inner held
    → Runs held (drop_inner inner) h bad
collected Holds.nothing = Runs-pure tt
collected (Holds.plain c e) = drop-plain c e refl
collected (Holds.secure c ctx e) = drop-secure c ctx e refl refl
collected (Holds.swapped c ctx e) = drop-secure c ctx e refl refl

-- The drop of the old manager while the new one is held.
abbrev Replaces :
    List Resource → List Resource → Option TlsOptions → Option ConnectionManager → Type 0
Replaces h held tls inner =
    (good : List Resource) × Runs (held_by tls held) (drop_inner inner) good held
    × ((c : ConnectionManager) → Fits tls c → Holds h (some c) good)

replaced :
    {h held : List Resource} (tls : Option TlsOptions) {inner : Option ConnectionManager}
    → Holds h inner held
    → Replaces h held tls inner
replaced none Holds.nothing = (_, Runs-pure tt, Holds.plain)
replaced none (Holds.plain c e) = (_, drop-plain c e refl, Holds.plain)
replaced none (Holds.secure c ctx e) = (_, drop-secure c ctx e refl refl, Holds.plain)
replaced none (Holds.swapped c ctx e) = (_, drop-secure c ctx e refl refl, Holds.plain)
replaced (some tls) Holds.nothing = (_, Runs-pure tt, λ c f. Holds.secure c (f.0) (f.1))
replaced (some tls) (Holds.plain c e) = (_, drop-plain c e refl, λ c f. Holds.swapped c (f.0) (f.1))
replaced (some tls) (Holds.secure c ctx e) =
    (_, drop-secure c ctx e refl refl, λ c f. Holds.secure c (f.0) (f.1))
replaced (some tls) (Holds.swapped c ctx e) =
    (_, drop-secure c ctx e refl refl, λ c f. Holds.swapped c (f.0) (f.1))

started_held :
    {h held : List Resource} {inner : Option ConnectionManager}
    → Holds h inner held
    → elem client_bootstrap h ≡ true
    → elem client_bootstrap held ≡ true
started_held Holds.nothing e = e
started_held (Holds.plain c f) e = e
started_held (Holds.secure c ctx f) e = e
started_held (Holds.swapped c ctx f) e = e

Settled-Held :
    {base h held good : List Resource} (opts : ConnectionManagerOptions) (rb_self : ConnectionPool)
    {t : Ended ConnectionPool}
    → Settled base good held t
    → Yields (Stored opts) t
    → Holds h (rb_self.inner) held
    → ((c : ConnectionManager) → Fits (opts.tls_options) c → Holds h (some c) good)
    → Held base h (pool_after rb_self t)
Settled-Held opts rb_self (settled e) y owns k = record {
  held = _;
  replays = e;
  owns = rw (y.1) (k (y.0) (y.2));
}
Settled-Held opts rb_self (gave_up e) y owns k = record { held = _; replays = e; owns = owns }

module _ {base h : List Resource} (a : ManagerAnswers) (rb_self : ConnectionPool)
    (log : List Call) where
  initialized-Held :
      (opts : ConnectionManagerOptions) (timeout : ℕ)
      → elem client_bootstrap h ≡ true
      → proxy_fits (opts.proxy_options) ≡ true
      → Held base h (rb_self, log)
      → Held base h (pool_after rb_self (initialize_with a rb_self opts timeout log))
  unfolding initialize_with
  initialized-Held opts timeout started fits e =
      let old = replaced (opts.tls_options) (e.owns) in
      Settled-Held opts rb_self
        ((Runs-bind (new-Runs a opts (started_held (e.owns) started) fits)
            (λ cm. Runs-bind (old.1) (λ _. Runs-pure _))).ends
          base log (e.replays))
        (initialize-Stored a rb_self opts timeout log) (e.owns) (old.2)

  read-Held :
      (read : Outcome (ConnectionManagerOptions × ℕ))
      → elem client_bootstrap h ≡ true
      → ReadFits read
      → Held base h (rb_self, log)
      → Held base h (after_initialize rb_self log (initialize_read a rb_self read))
  read-Held (value (opts, timeout)) started fits e = initialized-Held opts timeout started fits e
  read-Held (argument_error x) started fits e = e
  read-Held proxy_host_required started fits e = e
  read-Held proxy_not_a_hash started fits e = e
  read-Held (raised m) started fits e = e

module _ {Value Hash : Type 0} (ruby : Ruby Value Hash) {base h : List Resource} where
  pub initialize_all-Held :
      (calls : List (Initialize Hash)) (rb_self : ConnectionPool) (log : List Call)
      → elem client_bootstrap h ≡ true
      → AllFit ruby calls
      → Held base h (rb_self, log)
      → Held base h (initialize_all ruby calls rb_self log)
  unfolding initialize_all rb_initialize
  initialize_all-Held [] rb_self log started fits e = e
  initialize_all-Held (c ∷ cs) rb_self log started (fit, fits) e =
      initialize_all-Held cs _ _ started fits (
        read-Held (c.answers) rb_self log (read_options ruby (c.endpoint) (c.options)) started fit
          e)
