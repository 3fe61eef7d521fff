-- ===== src/Http/Trace/Streamed.antt =====
-- make_streaming_request of ext/aws_crt/src/http.rs: the chunks that the caller is given.
use aws_crt.Prelude.{
  Bool, List, Option, [], append-nil, false, if-true, inl, none, refl, some, sym, true, ℕ, ◌++◌,
  ◌∙◌, ◌∷◌, ◌≡◌,
}
use aws_crt.Prelude.Int.{ℤ}
use aws_crt.Http.State.{Header, RequestState, is_positive}
use aws_crt.Http.Callbacks.{Exchange, notify_one, on_response_body, on_response_headers, set_status}
use aws_crt.Http.Callbacks.Headers.{on_response_headers_lem, set_status-keeps}
use aws_crt.Http.Build.{MessageAnswers, Request, RequestOptions, build_request, built, new_state}
use aws_crt.Http.Run.{
  Caller, Returned, System, Yield, clean, drain, last_round, next_round, on_chunks, on_headers,
  start, told,
}
use aws_crt.Http.Trace.{
  Reaches, acquired, body_arrived, completed, ended, headers_arrived, round, started,
}
use aws_crt.Http.Fresh.{built-state}
use aws_crt.Http.Trace.Accounted.{is_none}
use aws_crt.Http.Trace.Resources.{Bool-rounds, Reaches-Sound, Sound, running}
use aws_crt.Http.Trace.Released.{reached-Sound}
use aws_crt.Http.Trace.Delivery.{
  Delivery, after, before, chunk-Delivery, frame-Delivery, told-Delivery, with_headers-Delivery,
}
use aws_crt.Http.Trace.Order.{Kept, acquired-Kept, completed-Kept, return_from-told}

pub record Streaming (cs : List (List ℕ)) (s : System) : Type 0 where
  pub streams : s.exchange.state.streaming ≡ true
  pub delivery : Delivery cs (s.exchange.state) (s.caller)
  pub emptied : is_none (s.caller.returned) ≡ false → s.exchange.state.chunks ≡ []

Kept-Streaming :
    {cs : List (List ℕ)} (s : System) (x : Exchange)
    → Kept (s.exchange.state) (x.state)
    → Streaming cs s
    → Streaming cs (record s { exchange = x })
Kept-Streaming s x k h = record {
  streams = k.same_streaming ∙ h.streams;
  delivery = frame-Delivery (k.same_chunks) (λ p. rw (k.same_status) p) (h.delivery);
  emptied = λ e. k.same_chunks ∙ h.emptied e;
}

headers-Streaming :
    {cs : List (List ℕ)} (room : ℕ → Bool) (status : ℤ) (block : List Header) (s : System)
    (y : Exchange)
    → on_response_headers room status block (s.exchange) ≡ some y
    → Streaming cs s
    → Streaming cs (record s { exchange = y })
headers-Streaming room status block s y e h =
    rw (on_response_headers_lem room status block (s.exchange) y e) (record {
      streams = set_status-streaming ∙ h.streams;
      delivery = with_headers-Delivery status block (s.exchange.state) (h.delivery);
      emptied = λ q. set_status-chunks ∙ h.emptied q;
    })
  where
    set_status-streaming :
        (set_status status (s.exchange.state)).streaming ≡ s.exchange.state.streaming
    set_status-streaming = (set_status-keeps status (s.exchange.state)).0

    set_status-chunks : (set_status status (s.exchange.state)).chunks ≡ s.exchange.state.chunks
    set_status-chunks = (set_status-keeps status (s.exchange.state)).1

streaming_body :
    (bytes : List ℕ) (x : Exchange)
    → x.state.streaming ≡ true
    → on_response_body bytes x
      ≡ notify_one
          (record x { state = record (x.state) { chunks = x.state.chunks ++ (bytes ∷ []) } })
unfolding on_response_body
streaming_body bytes x e = if-true _ _ e

body-Streaming :
    {cs : List (List ℕ)} (s : System) (bytes : List ℕ)
    → is_positive (s.exchange.state.status_code) ≡ true
    → s.caller.returned ≡ none
    → Streaming cs s
    → Streaming (cs ++ (bytes ∷ [])) (record s { exchange = on_response_body bytes (s.exchange) })
unfolding notify_one
body-Streaming s bytes p r h = rw (streaming_body bytes (s.exchange) (h.streams)) (record {
  streams = h.streams;
  delivery = chunk-Delivery bytes (s.exchange.state) p (h.delivery);
  emptied = λ q. absurd (unreturned r q);
})
  where
    unreturned : {o : Option Returned} → o ≡ none → is_none o ≡ false → ⊥
    unreturned e q = cc

-- A caller that differs in `returned` only.
return-Delivery :
    {cs : List (List ℕ)} {s : RequestState} {c : Caller} (r : Option Returned)
    → Delivery cs s c
    → Delivery cs s (record c { returned = r })
return-Delivery r (before d y w n) = before d y w n
return-Delivery r (after status block ds d y w) = after status block ds d y w

told-round :
    {cs : List (List ℕ)} (s : System)
    → Streaming cs s
    → Delivery cs (record (s.exchange.state) { chunks = [] }) (told s)
unfolding told
told-round s h = told-Delivery (s.exchange.state) (s.caller) (h.delivery)

last_round-Streaming :
    {cs : List (List ℕ)} (s : System) → Streaming cs s → Streaming cs (last_round s)
unfolding last_round clean drain
last_round-Streaming s h = record {
  streams = h.streams;
  delivery = rw (return_from-told s) (return-Delivery _ (told-round s h));
  emptied = λ q. refl;
}

next_round-Streaming :
    {cs : List (List ℕ)} (s : System) → Streaming cs s → Streaming cs (next_round s)
unfolding next_round drain
next_round-Streaming s h = record {
  streams = h.streams;
  delivery = told-round s h;
  emptied = λ q. refl;
}

end-not-streaming : {b : Bool} → b ≡ true → b ≡ false → ⊥
end-not-streaming e f = cc

pub Reaches-Streaming :
    {room : ℕ → Bool} {s₀ s : System} {cs : List (List ℕ)}
    → Sound s₀
    → Streaming [] s₀
    → Reaches room s₀ cs s
    → Streaming cs s
Reaches-Streaming o h started = h
Reaches-Streaming o h (acquired {s = s} t e connection code answers) =
    Kept-Streaming s _ (acquired-Kept connection code answers (s.exchange))
      (Reaches-Streaming o h t)
Reaches-Streaming o h (headers_arrived {s = s} t e status block {x} q) =
    headers-Streaming _ status block s x q (Reaches-Streaming o h t)
Reaches-Streaming o h (body_arrived {s = s} t e p bytes) =
    body-Streaming s bytes p (running s (Reaches-Sound o t) (λ q. cc)) (Reaches-Streaming o h t)
Reaches-Streaming o h (completed {s = s} t e code) =
    Kept-Streaming s _ (completed-Kept code (s.exchange)) (Reaches-Streaming o h t)
Reaches-Streaming o h (round {cs} {s} t e r w) =
    let ih = Reaches-Streaming o h t in
    Bool-rounds (Streaming cs) s (λ c. last_round-Streaming s ih) (λ c. next_round-Streaming s ih)
Reaches-Streaming o h (ended {s = s} t e r w) =
    absurd (end-not-streaming ((Reaches-Streaming o h t).streams) e)

-- What the caller of a streaming request was given in all: nothing, or the headers once and then each
-- chunk of `cs` by itself.
pub data Received (cs : List (List ℕ)) : List Yield → Type 0 where
  no_response : cs ≡ [] → Received cs []
  response :
      (status : ℤ) (block : List Header) → Received cs (on_headers status block ∷ on_chunks cs)

Delivery-Received :
    {cs : List (List ℕ)} {s : RequestState} {c : Caller}
    → s.chunks ≡ []
    → Delivery cs s c
    → Received cs (c.yields)
Delivery-Received e (before d y w n) = rw y (no_response (sym w ∙ e))
Delivery-Received {cs} e (after status block ds d y w) =
    let same : ds ≡ cs = sym (append-nil ds) ∙ rw e at w in rw (y, same) (response status block)

pub start-Streaming :
    (answers : MessageAnswers) (opts : RequestOptions) (r : Request)
    → build_request answers opts ≡ built r
    → opts.streaming ≡ true
    → Streaming [] (start r)
unfolding start new_state
start-Streaming answers opts r e f =
    let fresh = built-state answers opts e in
    record {
      streams = rw fresh f;
      delivery = before refl refl (rw fresh refl) (inl refl);
      emptied = λ q. rw fresh refl;
    }

-- In every order of the callbacks and of the caller's waits: once make_streaming_request returns, with
-- or without an error, the caller was given the headers at most once, before any chunk, and then exactly
-- the body parts that arrived, each once and in their order.
pub streamed-Received :
    {room : ℕ → Bool} (answers : MessageAnswers) (opts : RequestOptions) {r : Request} {s : System}
    {cs : List (List ℕ)} (v : Returned)
    → build_request answers opts ≡ built r
    → opts.streaming ≡ true
    → Reaches room (start r) cs s
    → s.caller.returned ≡ some v
    → Received cs (s.caller.yields)
streamed-Received {room} answers opts {r} {s} v e f t q =
    let h =
      Reaches-Streaming (reached-Sound {room = room} answers opts e started)
        (start-Streaming answers opts r e f) t in
    Delivery-Received (h.emptied (rw q refl)) (h.delivery)
