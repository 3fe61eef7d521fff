-- ===== src/Pool/Object/Latest.antt =====
-- Which manager a ConnectionPool of ext/aws_crt/src/pool.rs has after several calls of initialize.
use aws_crt.Prelude.{Bool, List, Option, [], codes, none, refl, some, true, ℕ, ◌∷◌, ◌≡◌, ◌∙◌}
use aws_crt.Crt.Resource.{Call, Resource, client_bootstrap, elem, tls_connection_options, tls_ctx}
use aws_crt.Crt.Action.{Ended, M, failed, panicked, pure, returned}
use aws_crt.Crt.Runs.{Settled}
use aws_crt.Crt.Yields.{Yields, Yields-afterwards, Yields-bind, Yields-bind_with, Yields-owning}
use aws_crt.Tls.{TlsContext, TlsOptions}
use aws_crt.Connection.{
  ConnectionManager, ConnectionManagerOptions, ManagerAnswers, new, new_for, new_manager, with_tls,
  cm_options,
}
use aws_crt.Connection.Released.{Fits, new-Fits}
use aws_crt.Pool.Endpoint.{Endpoint, Scheme, endpoint, http, https, parse_endpoint, rejected}
use aws_crt.Pool.Options.{
  Outcome, Ruby, argument_error, hash_get_bool, hash_get_string, hash_get_u32, hash_get_u64,
  hash_get_usize, options_for, tls_for, parse_proxy_options, proxy_host_required, proxy_not_a_hash,
  raised, read_options, value, ◌>>=◌,
}
use aws_crt.Pool.Object.{
  ConnectionPool, default_pool, drop_inner, initialize_read, initialize_with, rb_initialize,
}
use aws_crt.Pool.Object.Repeated.{
  AllFit, Held, Holds, Initialize, after_initialize, collected, initialize_all, initialize_all-Held,
  pool_after,
}

-- The endpoint of a call that returned takes the place of the old one, which stays otherwise.
abbrev endpoint_after : Option Endpoint → Endpoint → Ended ConnectionPool → Option Endpoint
endpoint_after old e (returned pool log) = some e
endpoint_after old e (failed code log) = old
endpoint_after old e (panicked log) = old

abbrev endpoint_read :
    Option Endpoint → Endpoint → List Call → Outcome (M ConnectionPool) → Option Endpoint
endpoint_read old e log (value m) = endpoint_after old e (m log)
endpoint_read old e log (argument_error x) = old
endpoint_read old e log proxy_host_required = old
endpoint_read old e log proxy_not_a_hash = old
endpoint_read old e log (raised m) = old

-- The endpoint of the last call that returned, if one did.
abbrev pub last_endpoint :
    {Value Hash : Type 0}
    → Ruby Value Hash
    → List (Initialize Hash)
    → ConnectionPool
    → List Call
    → Option Endpoint
    → Option Endpoint
last_endpoint ruby [] rb_self log old = old
last_endpoint ruby (c ∷ cs) rb_self log old =
    let m = rb_initialize ruby (c.answers) rb_self (c.endpoint) (c.options) in
    let next = after_initialize rb_self log m in
    last_endpoint ruby cs (next.0) (next.1) (endpoint_read old (parse_endpoint (c.endpoint)) log m)

-- A TLS context of its own where the scheme is https, and none where it is http.
abbrev pub HasTls : Scheme → ConnectionManager → Type 0
HasTls http cm = cm.owned_tls_ctx ≡ none
HasTls https cm = (ctx : TlsContext) × (cm.owned_tls_ctx ≡ some ctx)

-- The object's manager is the one for the endpoint: the CRT made it for its host and its port, and with
-- the TLS context that it owns.
abbrev pub Serves : Option Endpoint → Option ConnectionManager → Type 0
Serves none inner = inner ≡ none
Serves (some (rejected x)) inner = ⊥
Serves (some (endpoint scheme host port)) inner =
    (cm : ConnectionManager) × (inner ≡ some cm)
    × (cm.manager.host ≡ host)
    × (cm.manager.port ≡ port)
    × (cm.manager.tls_connection_options ≡ cm.owned_tls_ctx)
    × HasTls scheme cm

-- What the options take of an endpoint.
abbrev TlsFor : Scheme → Option TlsOptions → Type 0
TlsFor http tls = tls ≡ none
TlsFor https tls = (options : TlsOptions) × (tls ≡ some options)

abbrev AsRead : Endpoint → ConnectionManagerOptions × ℕ → Type 0
AsRead (rejected x) o = ⊥
AsRead (endpoint scheme host port) o =
    (o.0.host ≡ host) × (o.0.port ≡ port) × TlsFor scheme (o.0.tls_options)

abbrev Given : {A : Type 0} → (A → Type 0) → Outcome A → Type 0
Given P (value a) = P a
Given P (argument_error e) = Unit {0}
Given P proxy_host_required = Unit {0}
Given P proxy_not_a_hash = Unit {0}
Given P (raised m) = Unit {0}

Given-next :
    {A B : Type 0} (P : B → Type 0) (m : Outcome A) (f : A → Outcome B)
    → ((a : A) → Given P (f a))
    → Given P (m >>= f)
Given-next P (value a) f k = k a
Given-next P (argument_error e) f k = tt
Given-next P proxy_host_required f k = tt
Given-next P proxy_not_a_hash f k = tt
Given-next P (raised m) f k = tt

options_for-AsRead :
    {Value Hash : Type 0} (ruby : Ruby Value Hash) (hash : Hash) (e : Endpoint)
    → Given (AsRead e) (options_for ruby hash e)
unfolding options_for
options_for-AsRead ruby hash (rejected x) = tt
options_for-AsRead ruby hash (endpoint scheme host port) =
    let P = AsRead (endpoint scheme host port) in
    Given-next P (hash_get_usize ruby hash (codes "max_connections") 25) _ (λ _.
      Given-next P (hash_get_u64 ruby hash (codes "max_connection_idle_ms") 60000) _ (λ _.
        Given-next P (hash_get_u32 ruby hash (codes "connect_timeout_ms") 60000) _ (λ _.
          Given-next P (hash_get_u64 ruby hash (codes "read_timeout_ms") 0) _ (λ _.
            Given-next P (hash_get_bool ruby hash (codes "ssl_verify_peer") true) _ (λ _.
              Given-next P (hash_get_string ruby hash (codes "ssl_ca_bundle")) _ (λ _.
                Given-next P (parse_proxy_options ruby hash) _
                  (λ proxy. (refl, refl, tls scheme _ _))))))))
  where
    tls : (s : Scheme) (verify : Bool) (ca : Option (List ℕ)) → TlsFor s (tls_for ruby s verify ca)
    tls http verify ca = refl
    tls https verify ca = (_, refl)

-- What the CRT was told to make the manager of.
abbrev Connects : ConnectionManagerOptions → ConnectionManager → Type 0
Connects opts cm =
    (cm.manager.host ≡ opts.host)
    × (cm.manager.port ≡ opts.port)
    × (cm.manager.tls_connection_options ≡ cm.owned_tls_ctx)

new-Connects :
    (a : ManagerAnswers) (opts : ConnectionManagerOptions) (tls : Option TlsOptions)
    (log : List Call)
    → Yields (Connects opts) (new_for a opts tls log)
unfolding new_for with_tls new_manager pure cm_options
new-Connects a opts none log =
    let P = Connects opts in
    Yields-bind P _ _ (λ proxy. Yields-bind P _ _ (λ done log. (refl, refl, refl))) log
new-Connects a opts (some tls) log =
    let P = Connects opts in
    Yields-bind P _ _
      (λ ctx. Yields-owning P tls_ctx _ (
        Yields-bind P _ _ (λ _. Yields-bind P _ _ (λ _. Yields-bind P _ _ (λ proxy.
          Yields-afterwards P tls_connection_options _
            (Yields-bind P _ _ (λ _ log. (refl, refl, refl))))))))
      log

both :
    (P Q : ConnectionManager → Type 0) (t : Ended ConnectionManager)
    → Yields P t
    → Yields Q t
    → Yields (λ c. P c × Q c) t
both P Q (returned c log) p q = (p, q)
both P Q (failed code log) p q = tt
both P Q (panicked log) p q = tt

-- The manager that initialize stores.
abbrev Stores : ConnectionManagerOptions → ConnectionPool → Type 0
Stores opts pool =
    (cm : ConnectionManager) × (pool.inner ≡ some cm)
    × Fits (opts.tls_options) cm
    × Connects opts cm

initialize-Stores :
    (a : ManagerAnswers) (rb_self : ConnectionPool) (opts : ConnectionManagerOptions) (timeout : ℕ)
    (log : List Call)
    → Yields (Stores opts) (initialize_with a rb_self opts timeout log)
unfolding initialize_with new pure
initialize-Stores a rb_self opts timeout log =
    Yields-bind_with (λ c. Fits (opts.tls_options) c × Connects opts c) (Stores opts) _ _
      (λ l.
        both (Fits (opts.tls_options)) (Connects opts) (new_for a opts (opts.tls_options) l)
          (new-Fits a opts (opts.tls_options) l) (new-Connects a opts (opts.tls_options) l))
      (λ cm f.
        Yields-bind (Stores opts) (drop_inner (rb_self.inner)) _ (λ _ log. (cm, refl, f.0, f.1)))
      log

Fits-HasTls :
    (scheme : Scheme) (tls : Option TlsOptions) (cm : ConnectionManager)
    → TlsFor scheme tls
    → Fits tls cm
    → HasTls scheme cm
Fits-HasTls http none cm e f = f
Fits-HasTls http (some tls) cm e f = cc
Fits-HasTls https none cm e f = cc
Fits-HasTls https (some tls) cm e f = f

Stores-Serves :
    (e : Endpoint) (opts : ConnectionManagerOptions) (timeout : ℕ) (pool : ConnectionPool)
    → AsRead e (opts, timeout)
    → Stores opts pool
    → Serves (some e) (pool.inner)
Stores-Serves (rejected x) opts timeout pool r s = r
Stores-Serves (endpoint scheme host port) opts timeout pool (h, p, t) (cm, e, f, (ch, cp, ct)) =
    (cm, e, ch ∙ h, cp ∙ p, ct, Fits-HasTls scheme (opts.tls_options) cm t f)

ended-Serves :
    (old : Option Endpoint) (e : Endpoint) (opts : ConnectionManagerOptions) (timeout : ℕ)
    (rb_self : ConnectionPool) (t : Ended ConnectionPool)
    → AsRead e (opts, timeout)
    → Yields (Stores opts) t
    → Serves old (rb_self.inner)
    → Serves (endpoint_after old e t) ((pool_after rb_self t).0.inner)
ended-Serves old e opts timeout rb_self (returned pool log) r y s =
    Stores-Serves e opts timeout pool r y
ended-Serves old e opts timeout rb_self (failed code log) r y s = s
ended-Serves old e opts timeout rb_self (panicked log) r y s = s

read-Serves :
    (a : ManagerAnswers) (old : Option Endpoint) (e : Endpoint) (rb_self : ConnectionPool)
    (log : List Call) (read : Outcome (ConnectionManagerOptions × ℕ))
    → Given (AsRead e) read
    → Serves old (rb_self.inner)
    → Serves
        (endpoint_read old e log (initialize_read a rb_self read))
        ((after_initialize rb_self log (initialize_read a rb_self read)).0.inner)
read-Serves a old e rb_self log (value (opts, timeout)) r s =
    ended-Serves old e opts timeout rb_self (initialize_with a rb_self opts timeout log) r
      (initialize-Stores a rb_self opts timeout log) s
read-Serves a old e rb_self log (argument_error x) r s = s
read-Serves a old e rb_self log proxy_host_required r s = s
read-Serves a old e rb_self log proxy_not_a_hash r s = s
read-Serves a old e rb_self log (raised m) r s = s

initialize_all-Serves :
    {Value Hash : Type 0} (ruby : Ruby Value Hash) (calls : List (Initialize Hash))
    (old : Option Endpoint) (rb_self : ConnectionPool) (log : List Call)
    → Serves old (rb_self.inner)
    → Serves
        (last_endpoint ruby calls rb_self log old)
        ((initialize_all ruby calls rb_self log).0.inner)
unfolding initialize_all rb_initialize read_options
initialize_all-Serves ruby [] old rb_self log s = s
initialize_all-Serves ruby (c ∷ cs) old rb_self log s = initialize_all-Serves ruby cs _ _ _ (
    read-Serves (c.answers) old (parse_endpoint (c.endpoint)) rb_self log
      (read_options ruby (c.endpoint) (c.options))
      (options_for-AsRead ruby (c.options) (parse_endpoint (c.endpoint))) s)

-- However often initialize is called on a new ConnectionPool while no request is in flight, with any
-- endpoints and hashes and any answers of the CRT: the object has a manager exactly where a call
-- returned; it is the one for the host and the port of the last call that did, and owns a TLS context,
-- the one that it was made with, where the scheme of that endpoint is https, and none where it is http.
-- Nothing but what the object owns is held over h, and once it is collected, h alone is held. The client
-- bootstrap is in h, and no host of a proxy that is read of a hash has a zero byte.
pub initialize_all_then_collect :
    {Value Hash : Type 0} {h : List Resource} (ruby : Ruby Value Hash)
    (calls : List (Initialize Hash))
    → elem client_bootstrap h ≡ true
    → AllFit ruby calls
    → Serves
        (last_endpoint ruby calls default_pool [] none)
        ((initialize_all ruby calls default_pool []).0.inner)
      × Held h h (initialize_all ruby calls default_pool [])
      × Settled h h h (
          drop_inner
            ((initialize_all ruby calls default_pool []).0.inner)
            ((initialize_all ruby calls default_pool []).1))
unfolding default_pool
initialize_all_then_collect {h} ruby calls started fits =
    let kept : Held h h (initialize_all ruby calls default_pool []) =
      initialize_all-Held ruby calls default_pool [] started fits
        (record { held = h; replays = refl; owns = Holds.nothing }) in
    (
      initialize_all-Serves ruby calls none default_pool [] refl,
      kept,
      (collected (kept.owns)).ends h _ (kept.replays),
    )
