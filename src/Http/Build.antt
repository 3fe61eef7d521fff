-- ===== src/Http/Build.antt =====
-- ext/aws_crt/src/http.rs: the request message and its context, made and given back.
use aws_crt.Prelude.{ℕ, List, [], ◌∷◌, Bool, true, false, not, Option, none, some, if◌then◌else◌}
use aws_crt.Prelude.Int.{ℤ, pos}
use aws_crt.Http.State.{
  Header, RequestState, RequestContext, Call, acquire, release, message, input_stream, is_zero,
}
use aws_crt.Http.Callbacks.{Exchange, awaiting}

pub record RequestOptions : Type 0 where
  pub manager : ℕ
  pub method : List ℕ
  pub path : List ℕ
  pub headers : List Header
  pub body : Option (List ℕ)
  pub streaming : Bool
  pub read_timeout_ms : ℕ

-- The answers of the CRT while a message is built, return codes being 0 for success, and
-- aws_last_error at the end.
pub record MessageAnswers : Type 0 where
  pub message_made : Bool
  pub set_request_method : List ℕ → ℤ
  pub set_request_path : List ℕ → ℤ
  pub add_header : Header → ℤ
  pub input_stream_made : List ℕ → Bool
  pub last_error : ℤ

-- A request under way: what both threads share, and the context that the caller frees.
pub record Request : Type 0 where
  pub exchange : Exchange
  pub context : RequestContext

-- The error code of a failed build, with the calls made until then.
pub data Built : Type 0 where
  built : Request → Built
  build_failed : ℤ → List Call → Built

unfoldable pub add_headers : (Header → ℤ) → List Header → Bool
add_headers add_header [] = true
add_headers add_header (h ∷ hs) =
    let rest = add_headers add_header hs in if is_zero (add_header h) then rest else false

unfoldable pub new_state : ℕ → Bool → RequestState
new_state manager streaming = record {
  status_code = pos 0;
  headers = [];
  body = [];
  chunks = [];
  streaming = streaming;
  error_code = pos 0;
  complete = false;
  connection = none;
  manager = manager;
}

unfoldable pub new_request : RequestOptions → Bool → Option (List ℕ) → List Call → Request
new_request opts body_stream body_data log = record {
  exchange = record {
    phase = awaiting;
    state = new_state (opts.manager) (opts.streaming);
    calls = log;
    notified = 0;
  };
  context = record {
    body_stream = body_stream;
    body_data = body_data;
    response_first_byte_timeout_ms = opts.read_timeout_ms;
  };
}

-- The body is moved into the context, and an empty one is no body.
unfoldable pub set_body : MessageAnswers → RequestOptions → Option (List ℕ) → Built
set_body answers opts none = built (new_request opts false none (acquire message ∷ []))
set_body answers opts (some []) = built (new_request opts false none (acquire message ∷ []))
set_body answers opts (some (b ∷ bs)) =
    if answers.input_stream_made (b ∷ bs)
    then built (new_request opts true (some (b ∷ bs)) (acquire input_stream ∷ acquire message ∷ []))
    else build_failed (answers.last_error) (release message ∷ acquire message ∷ [])

unfoldable pub build_request : MessageAnswers → RequestOptions → Built
build_request answers opts =
    let refused = build_failed (answers.last_error) (release message ∷ acquire message ∷ []) in
    if not (answers.message_made)
    then build_failed (answers.last_error) []
    else if not (is_zero (answers.set_request_method (opts.method)))
    then refused
    else if not (is_zero (answers.set_request_path (opts.path)))
    then refused
    else if not (add_headers (answers.add_header) (opts.headers))
    then refused
    else set_body answers opts (opts.body)

-- The calls of cleanup_request_context, the newest first.
unfoldable pub cleanup_request_context : RequestContext → List Call → List Call
cleanup_request_context ctx log =
    if ctx.body_stream then release input_stream ∷ release message ∷ log else release message ∷ log
