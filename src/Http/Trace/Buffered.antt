-- ===== src/Http/Trace/Buffered.antt =====
-- make_request of ext/aws_crt/src/http.rs: the response that it returns.
use aws_crt.Prelude.{
  Bool, Bool-cases, List, Option, [], ap, false, if-false, inl, inr, none, refl, some, sym, true, ℕ,
  ◌++◌, ◌∙◌, ◌∷◌, ◌≡◌,
}
use aws_crt.Prelude.Int.{ℤ}
use aws_crt.Http.State.{Header, RequestState, is_zero}
use aws_crt.Http.Callbacks.{Exchange, on_response_body, on_response_headers}
use aws_crt.Http.Callbacks.Headers.{on_response_headers_lem, set_status-keeps, with_headers}
use aws_crt.Http.Build.{MessageAnswers, Request, RequestOptions, build_request, built, new_state}
use aws_crt.Http.Run.{
  HttpResponse, Returned, System, buffered_end, clean, failed, responded, start, streamed,
}
use aws_crt.Http.Trace.{
  Reaches, acquired, body_arrived, completed, ended, headers_arrived, round, started,
}
use aws_crt.Http.Fresh.{built-state}
use aws_crt.Http.Trace.Resources.{Reaches-Sound, Sound, running}
use aws_crt.Http.Trace.Released.{reached-Sound}
use aws_crt.Http.Trace.Delivery.{concat, concat-append}
use aws_crt.Http.Trace.Order.{acquired-Kept, completed-Kept}

buffered_body :
    (bytes : List ℕ) (x : Exchange)
    → x.state.streaming ≡ false
    → on_response_body bytes x
      ≡ record x { state = record (x.state) { body = x.state.body ++ bytes } }
unfolding on_response_body
buffered_body bytes x e = if-false _ _ e

-- The whole body, in the state or in the response that took it.
abbrev Body : List (List ℕ) → RequestState → Option Returned → Type 0
Body cs s none = s.body ≡ concat cs
Body cs s (some (responded r)) = r.body ≡ concat cs
Body cs s (some streamed) = ⊥
Body cs s (some (failed code)) = is_zero code ≡ false

record Buffering (cs : List (List ℕ)) (s : System) : Type 0 where
  pub buffers : s.exchange.state.streaming ≡ false
  pub body_so_far : Body cs (s.exchange.state) (s.caller.returned)

same_body-Body :
    (cs : List (List ℕ)) (s t : RequestState) (r : Option Returned)
    → t.body ≡ s.body
    → Body cs s r
    → Body cs t r
same_body-Body cs s t none e h = e ∙ h
same_body-Body cs s t (some (responded r)) e h = h
same_body-Body cs s t (some streamed) e h = h
same_body-Body cs s t (some (failed code)) e h = h

kept-Buffering :
    {cs : List (List ℕ)} (s : System) (x : Exchange)
    → x.state.streaming ≡ s.exchange.state.streaming
    → x.state.body ≡ s.exchange.state.body
    → Buffering cs s
    → Buffering cs (record s { exchange = x })
kept-Buffering {cs} s x f b h = record {
  buffers = f ∙ h.buffers;
  body_so_far =
      same_body-Body cs (s.exchange.state) (x.state) (s.caller.returned) b (h.body_so_far);
}

headers-Buffering :
    {cs : List (List ℕ)} (room : ℕ → Bool) (status : ℤ) (block : List Header) (s : System)
    (y : Exchange)
    → on_response_headers room status block (s.exchange) ≡ some y
    → Buffering cs s
    → Buffering cs (record s { exchange = y })
headers-Buffering room status block s y e h =
    let k = set_status-keeps status (s.exchange.state) in
    rw (on_response_headers_lem room status block (s.exchange) y e) (
      kept-Buffering s
        (record (s.exchange) { state = with_headers status block (s.exchange.state) }) (k.0) (k.2)
        h)

chunk-Body :
    (cs : List (List ℕ)) (bytes : List ℕ) (s : RequestState) (r : Option Returned)
    → r ≡ none
    → Body cs s r
    → Body (cs ++ (bytes ∷ [])) (record s { body = s.body ++ bytes }) r
chunk-Body cs bytes s none e h = ap (λ l. l ++ bytes) h ∙ sym (concat-append cs bytes)
chunk-Body cs bytes s (some r) e h = absurd (some-none e)
  where
    some-none : {v : Returned} → some v ≡ none → ⊥
    some-none e = cc

body-Buffering :
    {cs : List (List ℕ)} (s : System) (bytes : List ℕ)
    → s.caller.returned ≡ none
    → Buffering cs s
    → Buffering (cs ++ (bytes ∷ [])) (record s { exchange = on_response_body bytes (s.exchange) })
body-Buffering {cs} s bytes r h = rw (buffered_body bytes (s.exchange) (h.buffers)) (record {
  buffers = h.buffers;
  body_so_far = chunk-Body cs bytes (s.exchange.state) (s.caller.returned) r (h.body_so_far);
})

end-Buffering :
    {cs : List (List ℕ)} (s : System)
    → s.caller.returned ≡ none
    → Buffering cs s
    → Buffering cs (buffered_end s)
unfolding buffered_end clean
end-Buffering {cs} s r h = elim (Bool-cases (is_zero (s.exchange.state.error_code))) [
  | inl e ↦
      rw e
        (record { buffers = h.buffers; body_so_far = whole (s.caller.returned) r (h.body_so_far) })
  | inr e ↦ rw e (record { buffers = h.buffers; body_so_far = e })
]
  where
    whole :
        (o : Option Returned)
        → o ≡ none
        → Body cs (s.exchange.state) o
        → s.exchange.state.body ≡ concat cs
    whole none q b = b
    whole (some v) q b = cc

not-both : {b : Bool} → b ≡ false → b ≡ true → ⊥
not-both e f = cc

Reaches-Buffering :
    {room : ℕ → Bool} {s₀ s : System} {cs : List (List ℕ)}
    → Sound s₀
    → Buffering [] s₀
    → Reaches room s₀ cs s
    → Buffering cs s
Reaches-Buffering o h started = h
Reaches-Buffering o h (acquired {s = s} t e connection code answers) =
    let k = acquired-Kept connection code answers (s.exchange) in
    kept-Buffering s _ (k.same_streaming) (k.same_body) (Reaches-Buffering o h t)
Reaches-Buffering o h (headers_arrived {s = s} t e status block {x} q) =
    headers-Buffering _ status block s x q (Reaches-Buffering o h t)
Reaches-Buffering o h (body_arrived {s = s} t e p bytes) =
    body-Buffering s bytes (running s (Reaches-Sound o t) (λ q. cc)) (Reaches-Buffering o h t)
Reaches-Buffering o h (completed {s = s} t e code) =
    let k = completed-Kept code (s.exchange) in
    kept-Buffering s _ (k.same_streaming) (k.same_body) (Reaches-Buffering o h t)
Reaches-Buffering o h (round {s = s} t e r w) =
    absurd (not-both ((Reaches-Buffering o h t).buffers) e)
Reaches-Buffering o h (ended {s = s} t e r w) = end-Buffering s r (Reaches-Buffering o h t)

start-Buffering :
    (answers : MessageAnswers) (opts : RequestOptions) (r : Request)
    → build_request answers opts ≡ built r
    → opts.streaming ≡ false
    → Buffering [] (start r)
unfolding start new_state
start-Buffering answers opts r e f =
    let fresh = built-state answers opts e in
    record { buffers = rw fresh f; body_so_far = rw fresh refl }

-- What make_request returns, from the body parts that arrived.
pub data Answer (cs : List (List ℕ)) : Returned → Type 0 where
  answered : {r : HttpResponse} → r.body ≡ concat cs → Answer cs (responded r)
  refused : {code : ℤ} → is_zero code ≡ false → Answer cs (failed code)

Body-Answer :
    (cs : List (List ℕ)) (s : RequestState) (v : Returned) → Body cs s (some v) → Answer cs v
Body-Answer cs s (responded r) h = answered h
Body-Answer cs s streamed h = absurd h
Body-Answer cs s (failed code) h = refused h

-- In every order of the callbacks and of the caller's wait: what make_request returns is a response
-- whose body is every body part that arrived, in order and without a gap, or an error code that is not 0.
pub returned-Answer :
    {room : ℕ → Bool} (answers : MessageAnswers) (opts : RequestOptions) {r : Request} {s : System}
    {cs : List (List ℕ)} (v : Returned)
    → build_request answers opts ≡ built r
    → opts.streaming ≡ false
    → Reaches room (start r) cs s
    → s.caller.returned ≡ some v
    → Answer cs v
returned-Answer {room} answers opts {r} {s} {cs} v e f t q =
    let h =
      Reaches-Buffering (reached-Sound {room = room} answers opts e started)
        (start-Buffering answers opts r e f) t in
    Body-Answer cs (s.exchange.state) v (rw q at (h.body_so_far))
