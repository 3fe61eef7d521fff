-- ===== src/Http/Trace/Accounted.antt =====
-- What a request of ext/aws_crt/src/http.rs holds at each point, and that each callback keeps account of it.
use aws_crt.Prelude.{
  Bool, Bool-cases, List, Option, Option-cases, false, if◌then◌else◌, inl, inr, none, refl, some,
  sym, true, ℕ, ◌&&◌, ◌∙◌, ◌∷◌, ◌≡◌,
}
use aws_crt.Prelude.Int.{ℤ}
use aws_crt.Http.State.{
  Call, Header, Held, RequestContext, RequestState, input_stream, is_zero, message, release, replay,
}
use aws_crt.Http.Callbacks.{
  Exchange, Phase, StreamAnswers, active, awaiting, notify_one, on_connection_acquired_with_ctx,
  on_response_body, on_response_headers, on_stream_complete, over, request_on, set_status, signal,
}
use aws_crt.Http.Callbacks.Headers.{on_response_headers_lem}
use aws_crt.Http.Build.{cleanup_request_context}
use aws_crt.Http.Run.{clean}

abbrev pub is_active : Phase → Bool
is_active awaiting = false
is_active active = true
is_active over = false

abbrev pub is_over : Phase → Bool
is_over awaiting = false
is_over active = false
is_over over = true

abbrev pub is_none {ℓ} : {A : Type ℓ} → Option A → Bool
is_none none = true
is_none (some a) = false

-- What a request holds, from its phase and from whether the caller has returned.
abbrev pub expected : Phase → Bool → Bool → Held
expected phase body_stream running = record {
  has_message = running;
  has_input_stream = running && body_stream;
  has_connection = is_active phase;
  has_http_stream = is_active phase;
}

-- The log agrees with that, `complete` is set exactly when no callback follows, the connection is
-- stored while the stream is active, and the caller does not return before the end.
pub record Accounted (x : Exchange) (body_stream running : Bool) : Type 0 where
  pub log : replay (x.calls) ≡ some (expected (x.phase) body_stream running)
  pub flag : x.state.complete ≡ is_over (x.phase)
  pub stored : is_active (x.phase) ≡ true → is_none (x.state.connection) ≡ false
  pub waits : running ≡ false → x.phase ≡ over

signal-Accounted :
    (x : Exchange) {b : Bool} (code : ℤ) (cs : List Call)
    → replay cs ≡ some (expected over b true)
    → Accounted (signal code cs x) b true
unfolding signal notify_one
signal-Accounted x code cs h = record { log = h; flag = refl; stored = λ e. cc; waits = λ e. cc }

pub acquired-Accounted :
    {b : Bool} (connection : Option ℕ) (code : ℤ) (answers : StreamAnswers) (x : Exchange)
    → x.phase ≡ awaiting
    → Accounted x b true
    → Accounted (on_connection_acquired_with_ctx connection code answers x) b true
unfolding on_connection_acquired_with_ctx request_on
acquired-Accounted none code answers x e a = signal-Accounted _ _ _ (rw (a.log, e) refl)
acquired-Accounted (some c) code answers x e a = elim (Bool-cases (is_zero code)) [
  | inr z ↦ rw z (signal-Accounted _ _ _ (rw (a.log, e) refl))
  | inl z ↦ elim (Bool-cases (answers.stream_made)) [
    | inr m ↦ rw (z, m) (signal-Accounted _ _ _ (rw (a.log, e) refl))
    | inl m ↦ elim (Bool-cases (is_zero (answers.activated))) [
      | inr t ↦ rw (z, m, t) (signal-Accounted _ _ _ (rw (a.log, e) refl))
      | inl t ↦
          rw (z, m, t)
            (record {
              log = rw (a.log, e) refl;
              flag = rw (a.flag, e) refl;
              stored = λ q. refl;
              waits = λ q. cc;
            })
    ]
  ]
]

pub set_status-frame :
    (status : ℤ) (s : RequestState)
    → ((set_status status s).complete ≡ s.complete)
      × ((set_status status s).connection ≡ s.connection)
unfolding set_status
set_status-frame status s = elim (Bool-cases (is_zero (s.status_code))) [
  | inl e ↦ rw e (refl, refl)
  | inr e ↦ rw e (refl, refl)
]

-- A change of the state that leaves `complete` and `connection` alone.
pub frame-Accounted :
    (x : Exchange) (s : RequestState) {b r : Bool}
    → s.complete ≡ x.state.complete
    → s.connection ≡ x.state.connection
    → Accounted x b r
    → Accounted (record x { state = s }) b r
frame-Accounted x s f c a = record {
  log = a.log;
  flag = f ∙ a.flag;
  stored = λ e. rw c (a.stored e);
  waits = a.waits;
}

notified-Accounted : (x : Exchange) {b r : Bool} → Accounted x b r → Accounted (notify_one x) b r
unfolding notify_one
notified-Accounted x a = record { log = a.log; flag = a.flag; stored = a.stored; waits = a.waits }

pub headers-Accounted :
    (room : ℕ → Bool) (status : ℤ) (block : List Header) (x y : Exchange) {b r : Bool}
    → on_response_headers room status block x ≡ some y
    → Accounted x b r
    → Accounted y b r
headers-Accounted room status block x y e a =
    let (f, c) = set_status-frame status (x.state) in
    rw (on_response_headers_lem room status block x y e) (frame-Accounted x _ f c a)

pub body-Accounted :
    (bytes : List ℕ) (x : Exchange) {b r : Bool}
    → Accounted x b r
    → Accounted (on_response_body bytes x) b r
unfolding on_response_body
body-Accounted bytes x a = elim (Bool-cases (x.state.streaming)) [
  | inl e ↦ rw e (notified-Accounted _ (frame-Accounted x _ refl refl a))
  | inr e ↦ rw e (frame-Accounted x _ refl refl a)
]

pub completed-Accounted :
    (code : ℤ) (x : Exchange) {b : Bool}
    → x.phase ≡ active
    → Accounted x b true
    → Accounted (on_stream_complete code x) b true
unfolding on_stream_complete
completed-Accounted code x e a = elim (Option-cases (x.state.connection)) [
  | inl n ↦ absurd (missing n (a.stored (rw e refl)))
  | inr (c, n) ↦ rw n (signal-Accounted _ _ _ (rw (a.log, e) refl))
]
  where
    missing : {o : Option ℕ} → o ≡ none → is_none o ≡ false → ⊥
    missing n e = cc

clean-log :
    (b : Bool) (cs : List Call)
    → replay cs ≡ some (expected over b true)
    → replay (if b then release input_stream ∷ release message ∷ cs else release message ∷ cs)
      ≡ some (expected over b false)
clean-log true cs h = rw h refl
clean-log false cs h = rw h refl

pub is_over-over : (p : Phase) → is_over p ≡ true → p ≡ over
is_over-over awaiting e = cc
is_over-over active e = cc
is_over-over over e = refl

-- The caller's end: the context is freed, and the state keeps `complete`.
pub clean-Accounted :
    (ctx : RequestContext) (x : Exchange) (s : RequestState)
    → x.state.complete ≡ true
    → s.complete ≡ true
    → Accounted x (ctx.body_stream) true
    → Accounted (record (clean ctx x) { state = s }) (ctx.body_stream) false
unfolding clean cleanup_request_context
clean-Accounted ctx x s e f a =
    let o : x.phase ≡ over = is_over-over (x.phase) (sym (a.flag) ∙ e) in
    record {
      log = rw o (clean-log (ctx.body_stream) (x.calls) (rw o at (a.log)));
      flag = rw (o, f) refl;
      stored = λ q. absurd (inactive (x.phase) o q);
      waits = λ q. o;
    }
  where
    inactive : (p : Phase) → p ≡ over → is_active p ≡ true → ⊥
    inactive p o q = cc
