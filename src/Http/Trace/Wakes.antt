-- ===== src/Http/Trace/Wakes.antt =====
-- The waits of ext/aws_crt/src/http.rs on the condition variable: no callback that ends one forgets to
-- notify.
use aws_crt.Prelude.{
  Bool, Bool-cases, List, Option, Option-cases, arith, false, inl, inr, none, refl, some, true, ℕ,
  ◌+◌, ◌<◌, ◌≡◌, ◌⊎◌, ◌∙◌, ap,
}
use aws_crt.Prelude.Int.{ℤ}
use aws_crt.Http.State.{Call, Header, RequestState, is_positive, is_zero}
use aws_crt.Http.Callbacks.{
  Exchange, StreamAnswers, active, awaiting, notify_one, on_connection_acquired_with_ctx,
  on_response_body, on_response_headers, on_stream_complete, over, request_on, signal,
}
use aws_crt.Http.Callbacks.Headers.{on_response_headers_lem, set_status-keeps}
use aws_crt.Http.Build.{MessageAnswers, Request, RequestOptions, build_request, built}
use aws_crt.Http.Run.{System, buffered_end, chunk_or_completion, completion, start, streaming_round}
use aws_crt.Http.Trace.{Reaches, acquired, body_arrived, completed, headers_arrived}
use aws_crt.Http.Trace.Accounted.{is_none, set_status-frame}
use aws_crt.Http.Trace.Returns.{over-returns}

-- The callbacks that come while the caller is in one wait, in any order that the CRT allows, from an
-- exchange to a later one.
pub data Callbacks (room : ℕ → Bool) (x : Exchange) : Exchange → Type 0 where
  quiet : Callbacks room x x
  acquires :
      {y : Exchange}
      → Callbacks room x y
      → y.phase ≡ awaiting
      → (connection : Option ℕ) (code : ℤ) (answers : StreamAnswers)
      → Callbacks room x (on_connection_acquired_with_ctx connection code answers y)
  has_headers :
      {y : Exchange}
      → Callbacks room x y
      → y.phase ≡ active
      → (status : ℤ) (block : List Header) {z : Exchange}
      → on_response_headers room status block y ≡ some z
      → Callbacks room x z
  has_body :
      {y : Exchange}
      → Callbacks room x y
      → y.phase ≡ active
      → is_positive (y.state.status_code) ≡ true
      → (bytes : List ℕ) → Callbacks room x (on_response_body bytes y)
  completes :
      {y : Exchange}
      → Callbacks room x y
      → y.phase ≡ active
      → (code : ℤ) → Callbacks room x (on_stream_complete code y)

-- wait_for_completion and wait_for_chunk_or_completion.
pub data Wait : Type 0 where
  for_completion for_chunk_or_completion : Wait

abbrev pub is_done : Wait → RequestState → Bool
is_done for_completion s = completion s
is_done for_chunk_or_completion s = chunk_or_completion s

-- What the caller does when the wait is done.
abbrev pub resume : Wait → System → System
resume for_completion s = buffered_end s
resume for_chunk_or_completion s = streaming_round s

-- What a callback does for the waits: it notifies, or it leaves the queue and `complete` alone.
abbrev Heard : Exchange → Exchange → Type 0
Heard x y =
    (y.notified ≡ x.notified + 1)
    ⊎ ((y.notified ≡ x.notified)
        × (y.state.complete ≡ x.state.complete)
        × (y.state.chunks ≡ x.state.chunks))

signal-Heard :
    (code : ℤ) (log : List Call) (x y : Exchange)
    → y.notified ≡ x.notified
    → Heard x (signal code log y)
unfolding signal notify_one
signal-Heard code log x y e = inl (ap (λ n. n + 1) e)

acquired-Heard :
    (connection : Option ℕ) (code : ℤ) (answers : StreamAnswers) (x : Exchange)
    → Heard x (on_connection_acquired_with_ctx connection code answers x)
unfolding on_connection_acquired_with_ctx request_on
acquired-Heard none code answers x = signal-Heard _ _ x x refl
acquired-Heard (some c) code answers x = elim (Bool-cases (is_zero code)) [
  | inr z ↦ rw z (signal-Heard _ _ x x refl)
  | inl z ↦ elim (Bool-cases (answers.stream_made)) [
    | inr m ↦ rw (z, m) (signal-Heard _ _ x _ refl)
    | inl m ↦ elim (Bool-cases (is_zero (answers.activated))) [
      | inr t ↦ rw (z, m, t) (signal-Heard _ _ x _ refl)
      | inl t ↦ rw (z, m, t) (inr (refl, refl, refl))
    ]
  ]
]

headers-Heard :
    (room : ℕ → Bool) (status : ℤ) (block : List Header) (x y : Exchange)
    → on_response_headers room status block x ≡ some y
    → Heard x y
headers-Heard room status block x y e =
    rw (on_response_headers_lem room status block x y e)
      (inr (refl, (set_status-frame status (x.state)).0, (set_status-keeps status (x.state)).1))

body-Heard : (bytes : List ℕ) (x : Exchange) → Heard x (on_response_body bytes x)
unfolding on_response_body notify_one
body-Heard bytes x = elim (Bool-cases (x.state.streaming)) [
  | inl e ↦ rw e (inl refl)
  | inr e ↦ rw e (inr (refl, refl, refl))
]

completed-Heard : (code : ℤ) (x : Exchange) → Heard x (on_stream_complete code x)
unfolding on_stream_complete
completed-Heard code x = elim (Option-cases (x.state.connection)) [
  | inl n ↦ rw n (signal-Heard _ _ x _ refl)
  | inr (c, n) ↦ rw n (signal-Heard _ _ x _ refl)
]

-- Since a wait began: a notification came, or the condition is what it was.
abbrev SinceThen : Wait → Exchange → Exchange → Type 0
SinceThen w x y =
    (x.notified < y.notified)
    ⊎ ((y.notified ≡ x.notified) × (is_done w (y.state) ≡ is_done w (x.state)))

same_done :
    (w : Wait) (s t : RequestState)
    → t.complete ≡ s.complete
    → t.chunks ≡ s.chunks
    → is_done w t ≡ is_done w s
unfolding completion chunk_or_completion
same_done for_completion s t c d = c
same_done for_chunk_or_completion s t c d = rw (c, d) refl

then-Heard : (w : Wait) (x y z : Exchange) → SinceThen w x y → Heard y z → SinceThen w x z
then-Heard w x y z (inl n) (inl e) = inl (omega (arith, n, e))
then-Heard w x y z (inl n) (inr (e, _, _)) = inl (omega (arith, n, e))
then-Heard w x y z (inr (f, _)) (inl e) = inl (omega (arith, f, e))
then-Heard w x y z (inr (f, d)) (inr (e, c, k)) =
    inr (e ∙ f, same_done w (y.state) (z.state) c k ∙ d)

Callbacks-SinceThen :
    {room : ℕ → Bool} (w : Wait) {x y : Exchange} → Callbacks room x y → SinceThen w x y
Callbacks-SinceThen w {x} quiet = inr (refl, refl)
Callbacks-SinceThen w {x} (acquires {y} r e connection code answers) =
    then-Heard w x y (on_connection_acquired_with_ctx connection code answers y)
      (Callbacks-SinceThen w r) (acquired-Heard connection code answers y)
Callbacks-SinceThen w {x} (has_headers {y} r e status block {z} q) =
    then-Heard w x y z (Callbacks-SinceThen w r) (headers-Heard _ status block y z q)
Callbacks-SinceThen w {x} (has_body {y} r e p bytes) =
    then-Heard w x y (on_response_body bytes y) (Callbacks-SinceThen w r) (body-Heard bytes y)
Callbacks-SinceThen w {x} (completes {y} r e code) =
    then-Heard w x y (on_stream_complete code y) (Callbacks-SinceThen w r) (completed-Heard code y)

changed : {b c : Bool} → b ≡ c → c ≡ false → b ≡ true → ⊥
changed e f t = cc

-- Between the beginning of a wait, at which its condition does not hold, and any later point at which it
-- holds, the condition variable was notified, whatever callbacks came in between and in whatever order:
-- by a chunk that arrived, or by the end of the request.
pub done-notified :
    {room : ℕ → Bool} (w : Wait) {x y : Exchange}
    → is_done w (x.state) ≡ false
    → Callbacks room x y
    → is_done w (y.state) ≡ true
    → x.notified < y.notified
done-notified w {x} {y} f r d = woken (Callbacks-SinceThen w r)
  where
    woken : SinceThen w x y → x.notified < y.notified
    woken (inl n) = n
    woken (inr (_, e)) = absurd (changed e f d)

-- The callbacks of a wait are steps of the request.
Callbacks-Reaches :
    {room : ℕ → Bool} {s₀ s : System} {cs : List (List ℕ)} {y : Exchange}
    → Reaches room s₀ cs s
    → Callbacks room (s.exchange) y
    → (ds : List (List ℕ)) × Reaches room s₀ ds (record s { exchange = y })
Callbacks-Reaches t quiet = (_, t)
Callbacks-Reaches t (acquires r e connection code answers) =
    (_, acquired ((Callbacks-Reaches t r).1) e connection code answers)
Callbacks-Reaches t (has_headers r e status block q) =
    (_, headers_arrived ((Callbacks-Reaches t r).1) e status block q)
Callbacks-Reaches t (has_body r e p bytes) = (_, body_arrived ((Callbacks-Reaches t r).1) e p bytes)
Callbacks-Reaches t (completes r e code) = (_, completed ((Callbacks-Reaches t r).1) e code)

-- A wait that begins at any point of a request, with its condition not met, does not outlast the last
-- callback: once no callback follows, the condition variable was notified since, the condition holds, and
-- the next step of the caller returns.
pub over-woken :
    {room : ℕ → Bool} (answers : MessageAnswers) (opts : RequestOptions) {r : Request} {s : System}
    {cs : List (List ℕ)} {y : Exchange} (w : Wait)
    → build_request answers opts ≡ built r
    → Reaches room (start r) cs s
    → is_done w (s.exchange.state) ≡ false
    → Callbacks room (s.exchange) y
    → y.phase ≡ over
    → (s.exchange.notified < y.notified)
      × (is_done w (y.state) ≡ true)
      × (is_none ((resume w (record s { exchange = y })).caller.returned) ≡ false)
over-woken answers opts {s} {y} w e t f r o = ends w f
  where
    last :
        (completion (y.state) ≡ true)
        × (chunk_or_completion (y.state) ≡ true)
        × (is_none ((buffered_end (record s { exchange = y })).caller.returned) ≡ false)
        × (is_none ((streaming_round (record s { exchange = y })).caller.returned) ≡ false)
    last = over-returns answers opts e ((Callbacks-Reaches t r).1) o

    ends :
        (v : Wait)
        → is_done v (s.exchange.state) ≡ false
        → (s.exchange.notified < y.notified)
          × (is_done v (y.state) ≡ true)
          × (is_none ((resume v (record s { exchange = y })).caller.returned) ≡ false)
    ends for_completion g = (done-notified for_completion g r (last.0), last.0, last.2)
    ends for_chunk_or_completion g =
        (done-notified for_chunk_or_completion g r (last.1), last.1, last.3)
