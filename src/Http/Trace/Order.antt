-- ===== src/Http/Trace/Order.antt =====
-- make_request and make_streaming_request of ext/aws_crt/src/http.rs: the body that the caller gets is
-- the body that arrived.
use aws_crt.Prelude.{
  Bool-cases, Option, Option-cases, if◌then◌else◌, inl, inr, none, not, refl, some, ℕ, ◌≡◌,
}
use aws_crt.Prelude.Int.{ℤ}
use aws_crt.Http.State.{RequestState, is_positive, is_zero}
use aws_crt.Http.Callbacks.{
  Exchange, StreamAnswers, on_connection_acquired_with_ctx, notify_one, on_stream_complete,
  request_on, signal,
}
use aws_crt.Http.Run.{
  Caller, Returned, System, deliver_headers, failed, return_from, streamed, told, yield_chunks,
}

-- The callbacks for the connection and the end leave what arrived alone.
pub record Kept (s t : RequestState) : Type 0 where
  pub same_chunks : t.chunks ≡ s.chunks
  pub same_status : t.status_code ≡ s.status_code
  pub same_streaming : t.streaming ≡ s.streaming
  pub same_body : t.body ≡ s.body
  pub same_headers : t.headers ≡ s.headers

kept : {s : RequestState} → Kept s s
kept = record {
  same_chunks = refl;
  same_status = refl;
  same_streaming = refl;
  same_body = refl;
  same_headers = refl;
}

pub acquired-Kept :
    (connection : Option ℕ) (code : ℤ) (answers : StreamAnswers) (x : Exchange)
    → Kept (x.state) ((on_connection_acquired_with_ctx connection code answers x).state)
unfolding on_connection_acquired_with_ctx request_on signal notify_one
acquired-Kept none code answers x = record {
  same_chunks = refl;
  same_status = refl;
  same_streaming = refl;
  same_body = refl;
  same_headers = refl;
}
acquired-Kept (some c) code answers x = elim (Bool-cases (is_zero code)) [
  | inr z ↦ rw z (record {
    same_chunks = refl;
    same_status = refl;
    same_streaming = refl;
    same_body = refl;
    same_headers = refl;
  })
  | inl z ↦ elim (Bool-cases (answers.stream_made)) [
    | inr m ↦
        rw (z, m)
          (record {
            same_chunks = refl;
            same_status = refl;
            same_streaming = refl;
            same_body = refl;
            same_headers = refl;
          })
    | inl m ↦ elim (Bool-cases (is_zero (answers.activated))) [
      | inr t ↦
          rw (z, m, t)
            (record {
              same_chunks = refl;
              same_status = refl;
              same_streaming = refl;
              same_body = refl;
              same_headers = refl;
            })
      | inl t ↦
          rw (z, m, t)
            (record {
              same_chunks = refl;
              same_status = refl;
              same_streaming = refl;
              same_body = refl;
              same_headers = refl;
            })
    ]
  ]
]

pub completed-Kept : (code : ℤ) (x : Exchange) → Kept (x.state) ((on_stream_complete code x).state)
unfolding on_stream_complete signal notify_one
completed-Kept code x = elim (Option-cases (x.state.connection)) [
  | inl n ↦ rw n (record {
    same_chunks = refl;
    same_status = refl;
    same_streaming = refl;
    same_body = refl;
    same_headers = refl;
  })
  | inr (c, n) ↦ rw n (record {
    same_chunks = refl;
    same_status = refl;
    same_streaming = refl;
    same_body = refl;
    same_headers = refl;
  })
]

-- A second delivery of the headers in the round in which streaming ends would do nothing: with a
-- positive status they were delivered before the chunks of that round.
pub deliver_headers-twice :
    (s : RequestState) (c : Caller)
    → deliver_headers s (yield_chunks s (deliver_headers s c))
      ≡ yield_chunks s (deliver_headers s c)
unfolding deliver_headers yield_chunks
deliver_headers-twice s c = elim (Bool-cases (is_positive (s.status_code))) [
  | inr p ↦ elim (Bool-cases (c.headers_delivered)) [ inl d ↦ rw d refl | inr d ↦ rw (d, p) refl ]
  | inl p ↦ elim (Bool-cases (c.headers_delivered)) [ inl d ↦ rw d refl | inr d ↦ rw (d, p) refl ]
]

-- What the caller returns says whether there was an error.
abbrev pub outcome : RequestState → Returned
outcome s = if not (is_zero (s.error_code)) then failed (s.error_code) else streamed

pub return_from-told :
    (s : System)
    → return_from (s.exchange.state) (told s)
      ≡ record (told s) { returned = some (outcome (s.exchange.state)) }
unfolding return_from told
return_from-told s = elim (Bool-cases (is_zero (s.exchange.state.error_code))) [
  | inl e ↦ rw (e, deliver_headers-twice (s.exchange.state) (s.caller)) refl
  | inr e ↦ rw e refl
]
