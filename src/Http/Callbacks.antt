-- ===== src/Http/Callbacks.antt =====
-- The callbacks of ext/aws_crt/src/http.rs that the event loop of the CRT runs.
pub mod Headers
pub mod Numbers
use aws_crt.Prelude.{
  ℕ, zero, suc, ◌+◌, ◌-◌, ◌*◌, ◌^◌, List, [], ◌∷◌, ◌++◌, length, Bool, true, false, not, ◌&&◌, ltb,
  leb, ◌==◌, Option, none, some, if◌then◌else◌,
}
use aws_crt.Prelude.Int.{ℤ, pos, negsuc}
use aws_crt.Http.State.{
  Header, RequestState, RequestContext, Call, acquire, release, message, input_stream,
  connection_of_pool, http_stream, is_zero, is_positive, or_minus_one,
}

-- Where the CRT stands with a request: the connection is awaited, the stream is active and reports
-- back, or no callback follows.
pub data Phase : Type 0 where
  awaiting active over : Phase

-- What the event loop's thread changes.
pub record Exchange : Type 0 where
  pub phase : Phase
  pub state : RequestState
  pub calls : List Call
  -- How often the condition variable was notified.
  pub notified : ℕ

-- The answers of the CRT to the calls that on_connection_acquired_with_ctx makes: whether
-- aws_http_connection_make_request gives a stream, what aws_http_stream_activate returns, and
-- aws_last_error after either.
pub record StreamAnswers : Type 0 where
  pub stream_made : Bool
  pub activated : ℤ
  pub last_error : ℤ

-- `notify_one`.
unfoldable pub notify_one : Exchange → Exchange
notify_one x = record x { notified = x.notified + 1 }

-- Setting the error code and `complete`, and waking the waiting thread.
unfoldable pub signal : ℤ → List Call → Exchange → Exchange
signal code log x = notify_one (record x {
  phase = over;
  state = record (x.state) { error_code = code; complete = true };
  calls = log;
})

-- on_connection_acquired_with_ctx from the point where it stores the connection.
unfoldable pub request_on : ℕ → StreamAnswers → Exchange → Exchange
request_on connection answers x =
    let stored = record x { state = record (x.state) { connection = some connection } } in
    let taken = acquire connection_of_pool ∷ x.calls in
    if not (answers.stream_made)
    then signal (or_minus_one (answers.last_error)) (release connection_of_pool ∷ taken) stored
    else if is_zero (answers.activated)
    then record stored { phase = active; calls = acquire http_stream ∷ taken }
    else signal (or_minus_one (answers.last_error))
        (release connection_of_pool ∷ release http_stream ∷ acquire http_stream ∷ taken) stored

-- The connection that came with an error code is not one to give back.
unfoldable pub on_connection_acquired_with_ctx : Option ℕ → ℤ → StreamAnswers → Exchange → Exchange
on_connection_acquired_with_ctx none code answers x = signal (or_minus_one code) (x.calls) x
on_connection_acquired_with_ctx (some connection) code answers x =
    if is_zero code then request_on connection answers x else signal code (x.calls) x

-- Rust's `parse` of an unsigned number below `bound`, on bytes: one sign `+` is passed over, no digit
-- at all is refused, and so is a number that is too large.
unfoldable pub parse_digits : ℕ → ℕ → List ℕ → Option ℕ
parse_digits bound n [] = some n
parse_digits bound n (d ∷ ds) =
    let rest = parse_digits bound (10 * n + (d - 48)) ds in
    if leb 48 d && leb d 57 && ltb (10 * n + (d - 48)) bound then rest else none

unfoldable pub parse_unsigned : ℕ → List ℕ → Option ℕ
parse_unsigned bound [] = none
parse_unsigned bound (d ∷ []) = if d == 43 then none else parse_digits bound 0 (d ∷ [])
parse_unsigned bound (d ∷ e ∷ ds) =
    if d == 43 then parse_digits bound 0 (e ∷ ds) else parse_digits bound 0 (d ∷ e ∷ ds)

unfoldable pub to_ascii_lowercase : ℕ → ℕ
to_ascii_lowercase c = if leb 65 c && leb c 90 then c + 32 else c

unfoldable pub eq_ignore_ascii_case : List ℕ → List ℕ → Bool
eq_ignore_ascii_case [] [] = true
eq_ignore_ascii_case [] (y ∷ ys) = false
eq_ignore_ascii_case (x ∷ xs) [] = false
eq_ignore_ascii_case (x ∷ xs) (y ∷ ys) =
    (to_ascii_lowercase x == to_ascii_lowercase y) && eq_ignore_ascii_case xs ys

-- "content-length"
abbrev pub content_length : List ℕ
content_length =
    99 ∷ 111 ∷ 110 ∷ 116 ∷ 101 ∷ 110 ∷ 116 ∷ 45 ∷ 108 ∷ 101 ∷ 110 ∷ 103 ∷ 116 ∷ 104 ∷ []

-- How much more room the body is given for a header, if any.
unfoldable pub reservation : Bool → Header → Option ℕ
reservation streaming (name, value) =
    if not streaming && (length name == 14) && eq_ignore_ascii_case name content_length
    then parse_unsigned (2 ^ 64) value
    else none

-- `reserve` ends the process where the buffer would pass the largest size that Vec allows, and where
-- there is no memory for it, which `room` says.
unfoldable pub reserve : (ℕ → Bool) → ℕ → Option ℕ → Bool
reserve room size none = true
reserve room size (some more) = ltb (size + more) (2 ^ 63) && room (size + more)

-- The headers of one block, each copied to the state. `none` is the end of the process.
unfoldable pub push_headers : (ℕ → Bool) → List Header → RequestState → Option RequestState
push_headers room [] s = some s
push_headers room (h ∷ hs) s =
    let rest = push_headers room hs (record s { headers = s.headers ++ (h ∷ []) }) in
    if reserve room (length (s.body)) (reservation (s.streaming) h) then rest else none

-- `status` is what aws_http_stream_get_incoming_response_status writes. It is kept for good once it
-- is not 0.
unfoldable pub set_status : ℤ → RequestState → RequestState
set_status status s = if is_zero (s.status_code) then record s { status_code = status } else s

unfoldable pub on_response_headers : (ℕ → Bool) → ℤ → List Header → Exchange → Option Exchange
on_response_headers room status block x =
    elim (push_headers room block (set_status status (x.state))) [
      | some s ↦ some (record x { state = s })
      | none ↦ none
    ]

unfoldable pub on_response_body : List ℕ → Exchange → Exchange
on_response_body bytes x =
    let s = x.state in
    if s.streaming
    then notify_one (record x { state = record s { chunks = s.chunks ++ (bytes ∷ []) } })
    else record x { state = record s { body = s.body ++ bytes } }

unfoldable pub on_stream_complete : ℤ → Exchange → Exchange
on_stream_complete code x = elim (x.state.connection) [
  | some connection ↦ signal code (release connection_of_pool ∷ release http_stream ∷ x.calls) x
  | none ↦ signal code (release http_stream ∷ x.calls) x
]
