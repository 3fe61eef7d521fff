-- ===== src/Http/Run.antt =====
-- The calling thread in ext/aws_crt/src/http.rs: make_request and make_streaming_request from the end
-- of build_request on, one wait of the caller after the other.
use aws_crt.Prelude.{
  ℕ, List, [], ◌∷◌, ◌++◌, Bool, true, false, not, ◌&&◌, ◌||◌, Option, none, some, if◌then◌else◌,
}
use aws_crt.Prelude.Int.{ℤ}
use aws_crt.Http.State.{Header, RequestState, RequestContext, is_zero, is_positive}
use aws_crt.Http.Callbacks.{Exchange}
use aws_crt.Http.Build.{Request, cleanup_request_context}

-- The calls of the caller's two closures.
pub data Yield : Type 0 where
  on_headers : ℤ → List Header → Yield
  on_chunk : List ℕ → Yield

pub record HttpResponse : Type 0 where
  pub status_code : ℤ
  pub headers : List Header
  pub body : List ℕ

-- What the function returned: Ok with a response, Ok after streaming, or Err with a CRT error code.
pub data Returned : Type 0 where
  responded : HttpResponse → Returned
  streamed : Returned
  failed : ℤ → Returned

pub record Caller : Type 0 where
  pub headers_delivered : Bool
  pub yields : List Yield
  pub returned : Option Returned

pub record System : Type 0 where
  pub exchange : Exchange
  pub context : RequestContext
  pub caller : Caller

unfoldable pub start : Request → System
start r = record {
  exchange = r.exchange;
  context = r.context;
  caller = record { headers_delivered = false; yields = []; returned = none };
}

abbrev pub is_empty {ℓ} : {A : Type ℓ} → List A → Bool
is_empty [] = true
is_empty (x ∷ xs) = false

-- The condition that ends the wait of wait_for_completion and of wait_for_chunk_or_completion.
unfoldable pub completion : RequestState → Bool
completion s = s.complete

unfoldable pub chunk_or_completion : RequestState → Bool
chunk_or_completion s = s.complete || not (is_empty (s.chunks))

abbrev pub on_chunks : List (List ℕ) → List Yield
on_chunks [] = []
on_chunks (c ∷ cs) = on_chunk c ∷ on_chunks cs

-- `s` is the state as it was under the lock.
unfoldable pub deliver_headers : RequestState → Caller → Caller
deliver_headers s c =
    if not (c.headers_delivered) && is_positive (s.status_code)
    then record c {
      headers_delivered = true;
      yields = c.yields ++ (on_headers (s.status_code) (s.headers) ∷ []);
    }
    else c

unfoldable pub yield_chunks : RequestState → Caller → Caller
yield_chunks s c = record c { yields = c.yields ++ on_chunks (s.chunks) }

-- The end of a round in which `complete` was seen. The second delivery of the headers is the source's.
unfoldable pub return_from : RequestState → Caller → Caller
return_from s c =
    if not (is_zero (s.error_code))
    then record c { returned = some (failed (s.error_code)) }
    else record (deliver_headers s c) { returned = some streamed }

-- The queue is emptied under the lock; the rest works on what was taken.
unfoldable pub drain : Exchange → Exchange
drain x = record x { state = record (x.state) { chunks = [] } }

unfoldable pub clean : RequestContext → Exchange → Exchange
clean ctx x = record x { calls = cleanup_request_context ctx (x.calls) }

-- The caller after it delivered what it took: the headers once, and then each chunk.
unfoldable pub told : System → Caller
told s = yield_chunks (s.exchange.state) (deliver_headers (s.exchange.state) (s.caller))

unfoldable pub last_round : System → System
last_round s = record s {
  exchange = clean (s.context) (drain (s.exchange));
  caller = return_from (s.exchange.state) (told s);
}

unfoldable pub next_round : System → System
next_round s = record s { exchange = drain (s.exchange); caller = told s }

-- One round of the loop in make_streaming_request, from the end of the wait on.
unfoldable pub streaming_round : System → System
streaming_round s = if s.exchange.state.complete then last_round s else next_round s

-- make_request from the end of its wait on.
unfoldable pub buffered_end : System → System
buffered_end s =
    let seen = s.exchange.state in
    let cleaned = record s { exchange = clean (s.context) (s.exchange) } in
    if not (is_zero (seen.error_code))
    then record cleaned {
      caller = record (s.caller) { returned = some (failed (seen.error_code)) };
    }
    else record cleaned {
      exchange = record (clean (s.context) (s.exchange)) {
        state = record seen { headers = []; body = [] };
      };
      caller = record (s.caller) {
        returned = some (
            responded (record {
              status_code = seen.status_code;
              headers = seen.headers;
              body = seen.body;
            }));
      };
    }
