-- ===== src/Pool/Streamed.antt =====
-- ConnectionPool#request with a block, of ext/aws_crt/src/pool.rs, over http.rs: what the block sees.
use aws_crt.Prelude.{Bool, List, [], ap, refl, some, sym, true, false, ℕ, ◌∷◌, ◌++◌, ◌≡◌}
use aws_crt.Prelude.Int.{pos, ℤ}
use aws_crt.Http.State.{Header, is_positive}
use aws_crt.Http.Callbacks.{Phase}
use aws_crt.Http.Build.{MessageAnswers, Request, RequestOptions, build_request, built}
use aws_crt.Http.Run.{Caller, Returned, System, Yield, on_chunks, on_headers, start, streamed}
use aws_crt.Http.Trace.{Reaches}
use aws_crt.Http.Trace.Accounted.{is_none}
use aws_crt.Http.Trace.Heads.{Heads, all_headers, first_headers, first_status, reached-Known}
use aws_crt.Http.Trace.Streamed.{Received, no_response, response, streamed-Received}
use aws_crt.Pool.Reply.{Reply, block_calls, captured, rb_request_reply, streamed_reply}

block_calls-on_chunks : (cs : List (List ℕ)) → block_calls (on_chunks cs) ≡ cs
unfolding block_calls
block_calls-on_chunks [] = refl
block_calls-on_chunks (c ∷ cs) = ap (◌∷◌ c) (block_calls-on_chunks cs)

Received-block_calls : {cs : List (List ℕ)} {ys : List Yield} → Received cs ys → block_calls ys ≡ cs
unfolding block_calls
Received-block_calls (no_response e) = sym e
Received-block_calls {cs} (response status block) = block_calls-on_chunks cs

-- In every order of callbacks and waits: once the request returns, with or without an exception, the
-- block was called with each body part that arrived, once and in order.
block_calls-returned :
    {room : ℕ → Bool} (answers : MessageAnswers) (opts : RequestOptions) {r : Request} {s : System}
    {cs : List (List ℕ)} (v : Returned)
    → build_request answers opts ≡ built r
    → opts.streaming ≡ true
    → Reaches room (start r) cs s
    → s.caller.returned ≡ some v
    → block_calls (s.caller.yields) ≡ cs
block_calls-returned answers opts v e f t q =
    Received-block_calls (streamed-Received answers opts v e f t q)

captured-on_chunks :
    (seen : ℤ × List Header) (cs : List (List ℕ)) → captured seen (on_chunks cs) ≡ seen
unfolding captured
captured-on_chunks seen [] = refl
captured-on_chunks seen (c ∷ cs) = captured-on_chunks seen cs

-- The reply to a request with a block that ended without an exception, from the first status that was
-- reported, the headers that arrived before the first part of the body, and all headers: that status
-- with the first headers, and maybe more of those that arrived, in their order; or 0 and no headers where
-- no positive status was reported.
pub data Replied (status : ℤ) (first all : List Header) : Reply → Type 0 where
  silent : is_positive status ≡ false → Replied status first all (streamed_reply (pos 0) [])
  answered :
      (more later : List Header)
      → is_positive status ≡ true
      → all ≡ (first ++ more) ++ later
      → Replied status first all (streamed_reply status (first ++ more))

Heads-Replied :
    {status : ℤ} {first all : List Header} {cs : List (List ℕ)} {phase : Phase} {c : Caller}
    → Received cs (c.yields)
    → is_none (c.returned) ≡ false
    → Heads status first all cs phase c
    → Replied status first all (rb_request_reply (c.yields) streamed)
unfolding rb_request_reply captured
Heads-Replied received r (Heads.silent u y n) = rw y (Replied.silent (n r))
Heads-Replied {status} {first} received r (Heads.spoken more later ys u p y a q) =
    rw (y, captured-told received y) (answered more later p a)
  where
    captured-told :
        {cs : List (List ℕ)} {zs : List Yield}
        → Received cs zs
        → zs ≡ on_headers status (first ++ more) ∷ ys
        → captured (status, first ++ more) ys ≡ (status, first ++ more)
    captured-told (no_response _) q = cc
    captured-told {cs} (response st block) q =
        let rest : ys ≡ on_chunks cs = cc in rw rest (captured-on_chunks (status, first ++ more) cs)

-- In every order of callbacks and waits: once a request with a block returns without an exception, its
-- reply has the first status that is not 0 which the CRT reported, where it is positive, and with it all
-- headers that arrived before the first part of the body, maybe more that arrived behind those, and no
-- others, in their order; where that status is not positive, or none was reported, it has 0 and no headers.
pub returned-Replied :
    {room : ℕ → Bool} (answers : MessageAnswers) (opts : RequestOptions) {r : Request} {s : System}
    {cs : List (List ℕ)}
    → build_request answers opts ≡ built r
    → opts.streaming ≡ true
    → (t : Reaches room (start r) cs s) → s.caller.returned ≡ some streamed
    → Replied
        (first_status t)
        (first_headers t)
        (all_headers t)
        (rb_request_reply (s.caller.yields) streamed)
returned-Replied answers opts e f t q =
    Heads-Replied (streamed-Received answers opts streamed e f t q) (rw q refl)
      ((reached-Known answers opts e f t).heads)
