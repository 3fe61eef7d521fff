-- ===== src/Pool/Reply.antt =====
-- ConnectionPool#request of ext/aws_crt/src/pool.rs: what it gives back, from what http.rs returned.
use aws_crt.Prelude.{List, [], ℕ, ◌∷◌}
use aws_crt.Prelude.Int.{pos, ℤ}
use aws_crt.Http.State.{Header}
use aws_crt.Http.Run.{Returned, Yield, failed, on_chunk, on_headers, responded, streamed}

-- The Ruby value: [status, headers, body] without a block, [status, headers] with one, or the
-- exception of a CRT error code.
pub data Reply : Type 0 where
  buffered : ℤ → List Header → List ℕ → Reply
  streamed_reply : ℤ → List Header → Reply
  raises : ℤ → Reply

-- captured_status and captured_headers after the calls of the two closures.
unfoldable pub captured : ℤ × List Header → List Yield → ℤ × List Header
captured seen [] = seen
captured seen (on_headers status block ∷ ys) = captured (status, block) ys
captured seen (on_chunk c ∷ ys) = captured seen ys

-- The chunks with which the block was called.
unfoldable pub block_calls : List Yield → List (List ℕ)
block_calls [] = []
block_calls (on_headers status block ∷ ys) = block_calls ys
block_calls (on_chunk c ∷ ys) = c ∷ block_calls ys

unfoldable pub rb_request_reply : List Yield → Returned → Reply
rb_request_reply ys (responded r) = buffered (r.status_code) (r.headers) (r.body)
rb_request_reply ys streamed =
    let seen = captured (pos 0, []) ys in streamed_reply (seen.0) (seen.1)
rb_request_reply ys (failed code) = raises code
