-- ===== src/Http/Trace/Returns.antt =====
-- The end of make_request and make_streaming_request of ext/aws_crt/src/http.rs.
use aws_crt.Prelude.{Bool, Bool-cases, List, false, inl, inr, refl, true, ℕ, ◌≡◌}
use aws_crt.Http.State.{is_zero}
use aws_crt.Http.Callbacks.{over}
use aws_crt.Http.Build.{MessageAnswers, Request, RequestOptions, build_request, built}
use aws_crt.Http.Run.{
  System, buffered_end, chunk_or_completion, completion, last_round, start, streaming_round, told,
}
use aws_crt.Http.Trace.{Reaches}
use aws_crt.Http.Trace.Accounted.{is_none}
use aws_crt.Http.Trace.Resources.{Bool-rounds, return_from-returned}
use aws_crt.Http.Trace.Released.{complete-over}

Returns : System → Type 0
Returns s = is_none (s.caller.returned) ≡ false

last_round-returned : (s : System) → Returns (last_round s)
unfolding Returns last_round
last_round-returned s = return_from-returned (s.exchange.state) (told s)

buffered_end-returned : (s : System) → Returns (buffered_end s)
unfolding Returns buffered_end
buffered_end-returned s = elim (Bool-cases (is_zero (s.exchange.state.error_code))) [
  | inl e ↦ rw e refl
  | inr e ↦ rw e refl
]

incomplete : {b : Bool} → b ≡ true → b ≡ false → ⊥
incomplete e f = cc

-- At every point after the last callback, whatever it was: the waits of both functions are over, and
-- the next step of the caller is its last one, with a result.
pub over-returns :
    {room : ℕ → Bool} (answers : MessageAnswers) (opts : RequestOptions) {r : Request} {s : System}
    {cs : List (List ℕ)}
    → build_request answers opts ≡ built r
    → Reaches room (start r) cs s
    → s.exchange.phase ≡ over
    → (completion (s.exchange.state) ≡ true)
      × (chunk_or_completion (s.exchange.state) ≡ true)
      × (is_none ((buffered_end s).caller.returned) ≡ false)
      × (is_none ((streaming_round s).caller.returned) ≡ false)
unfolding completion chunk_or_completion Returns
over-returns answers opts {s = s} e t o =
    let c = (complete-over answers opts e t).1 o in
    (
      c,
      rw c refl,
      buffered_end-returned s,
      Bool-rounds Returns s (λ _. last_round-returned s) (λ f. absurd (incomplete c f)),
    )
