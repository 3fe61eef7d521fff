-- ===== src/Http/Trace.antt =====
-- The order in which the two threads of ext/aws_crt/src/http.rs may take their steps.
pub mod Accounted
pub mod Resources
pub mod Released
pub mod Returns
pub mod Wakes
pub mod Delivery
pub mod Order
pub mod Streamed
pub mod Buffered
pub mod Heads
use aws_crt.Prelude.{ℕ, List, [], ◌∷◌, ◌++◌, Bool, true, false, Option, none, some, ◌≡◌}
use aws_crt.Prelude.Int.{ℤ}
use aws_crt.Http.State.{Header, is_positive}
use aws_crt.Http.Callbacks.{
  Exchange, StreamAnswers, awaiting, active, on_connection_acquired_with_ctx, on_response_headers,
  on_response_body, on_stream_complete,
}
use aws_crt.Http.Run.{System, completion, chunk_or_completion, streaming_round, buffered_end}

-- `Reaches room s₀ cs s`: from the system s₀ the steps lead to s, and the body parts cs arrived in this
-- order. The CRT calls back once for the connection, and calls back for headers and body parts, then
-- once for the end, while the stream is active; the status line comes before the body. The caller
-- takes a step when its wait is over, at any point between those.
pub data Reaches (room : ℕ → Bool) (s₀ : System) : List (List ℕ) → System → Type 0 where
  started : Reaches room s₀ [] s₀
  acquired :
      {cs : List (List ℕ)} {s : System}
      → Reaches room s₀ cs s
      → s.exchange.phase ≡ awaiting
      → (connection : Option ℕ) (code : ℤ) (answers : StreamAnswers)
      → Reaches room s₀ cs (record s {
        exchange = on_connection_acquired_with_ctx connection code answers (s.exchange);
      })
  headers_arrived :
      {cs : List (List ℕ)} {s : System}
      → Reaches room s₀ cs s
      → s.exchange.phase ≡ active
      → (status : ℤ) (block : List Header) {x : Exchange}
      → on_response_headers room status block (s.exchange) ≡ some x
      → Reaches room s₀ cs (record s { exchange = x })
  body_arrived :
      {cs : List (List ℕ)} {s : System}
      → Reaches room s₀ cs s
      → s.exchange.phase ≡ active
      → is_positive (s.exchange.state.status_code) ≡ true
      → (bytes : List ℕ)
      → Reaches room s₀
          (cs ++ (bytes ∷ []))
          (record s { exchange = on_response_body bytes (s.exchange) })
  completed :
      {cs : List (List ℕ)} {s : System}
      → Reaches room s₀ cs s
      → s.exchange.phase ≡ active
      → (code : ℤ)
      → Reaches room s₀ cs (record s { exchange = on_stream_complete code (s.exchange) })
  round :
      {cs : List (List ℕ)} {s : System}
      → Reaches room s₀ cs s
      → s.exchange.state.streaming ≡ true
      → s.caller.returned ≡ none
      → chunk_or_completion (s.exchange.state) ≡ true
      → Reaches room s₀ cs (streaming_round s)
  ended :
      {cs : List (List ℕ)} {s : System}
      → Reaches room s₀ cs s
      → s.exchange.state.streaming ≡ false
      → s.caller.returned ≡ none
      → completion (s.exchange.state) ≡ true
      → Reaches room s₀ cs (buffered_end s)
