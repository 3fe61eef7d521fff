-- ===== src/Http/Tests.antt =====
-- A streaming and a buffered request of ext/aws_crt/src/http.rs, step by step.
use aws_crt.Prelude.{Bool, ◌<◌, [], false, refl, some, true, ◌↔◌, ◌∷◌, ◌≡◌}
use aws_crt.Prelude.Int.{negsuc, pos}
use aws_crt.Http.State.{acquire, input_stream, message, nothing_held, release, replay}
use aws_crt.Http.Callbacks.{
  StreamAnswers, on_connection_acquired_with_ctx, on_response_body, on_response_headers, notify_one,
  on_stream_complete, over, push_headers, request_on, set_status, signal,
}
use aws_crt.Http.Build.{
  MessageAnswers, Request, RequestOptions, add_headers, build_request, built, new_request,
  new_state, set_body,
}
use aws_crt.Http.Run.{
  HttpResponse, System, buffered_end, chunk_or_completion, clean, completion, deliver_headers,
  last_round, next_round, responded, return_from, start, streamed, streaming_round, told,
  yield_chunks,
}
use aws_crt.Http.Trace.{
  Reaches, acquired, body_arrived, completed, ended, headers_arrived, round, started,
}
use aws_crt.Http.Trace.Accounted.{is_none}
use aws_crt.Http.Trace.Released.{
  only_message, build_request-released, complete-over, returned-released,
}
use aws_crt.Http.Trace.Wakes.{
  Callbacks, acquires, completes, done-notified, for_chunk_or_completion, for_completion, has_body,
  has_headers, is_done, over-woken, quiet, resume,
}
use aws_crt.Http.Trace.Streamed.{Received, streamed-Received}
use aws_crt.Http.Trace.Buffered.{Answer, returned-Answer}

abbrev pub good_messages : MessageAnswers
good_messages = record {
  message_made = true;
  set_request_method = λ m. pos 0;
  set_request_path = λ p. pos 0;
  add_header = λ h. pos 0;
  input_stream_made = λ b. true;
  last_error = pos 0;
}

abbrev good_stream : StreamAnswers
good_stream = record { stream_made = true; activated = pos 0; last_error = pos 0 }

abbrev pub options : Bool → RequestOptions
options streaming = record {
  manager = 1;
  method = 71 ∷ [];
  path = 47 ∷ [];
  headers = [];
  body = some (5 ∷ []);
  streaming = streaming;
  read_timeout_ms = 0;
}

abbrev pub request : Bool → Request
request streaming =
    new_request (options streaming) true (some (5 ∷ []))
      (acquire input_stream ∷ acquire message ∷ [])

pub built_request : (b : Bool) → build_request good_messages (options b) ≡ built (request b)
unfolding build_request add_headers set_body
built_request b = refl

-- Each step's system.
abbrev connected : Bool → System
connected b = record (start (request b)) {
  exchange =
      on_connection_acquired_with_ctx (some 7) (pos 0) good_stream ((start (request b)).exchange);
}

abbrev pub told_headers : Bool → System
told_headers b = record (connected b) {
  exchange = record ((connected b).exchange) {
    state = record ((connected b).exchange.state) { status_code = pos 200; headers = [] };
  };
}

abbrev got_body : Bool → System
got_body b = record (told_headers b) {
  exchange = on_response_body (1 ∷ 2 ∷ []) ((told_headers b).exchange);
}

abbrev finished : Bool → System
finished b = record (got_body b) { exchange = on_stream_complete (pos 0) ((got_body b).exchange) }

abbrev pub streamed_end : System
streamed_end = streaming_round (finished true)

abbrev buffered_done : System
buffered_done = buffered_end (finished false)

finished_trace :
    (b : Bool) → Reaches (λ n. true) (start (request b)) ((1 ∷ 2 ∷ []) ∷ []) (finished b)
unfolding start new_request new_state on_connection_acquired_with_ctx request_on signal notify_one
    on_response_headers push_headers set_status on_response_body on_stream_complete
finished_trace true =
    completed
      (body_arrived
        (headers_arrived (acquired started refl (some 7) (pos 0) good_stream) refl (pos 200) []
          refl)
        refl refl (1 ∷ 2 ∷ []))
      refl (pos 0)
finished_trace false =
    completed
      (body_arrived
        (headers_arrived (acquired started refl (some 7) (pos 0) good_stream) refl (pos 200) []
          refl)
        refl refl (1 ∷ 2 ∷ []))
      refl (pos 0)

pub streamed_trace : Reaches (λ n. true) (start (request true)) ((1 ∷ 2 ∷ []) ∷ []) streamed_end
unfolding start new_request new_state on_connection_acquired_with_ctx request_on signal notify_one
    on_response_body on_stream_complete chunk_or_completion
streamed_trace = round (finished_trace true) refl refl refl

buffered_trace : Reaches (λ n. true) (start (request false)) ((1 ∷ 2 ∷ []) ∷ []) buffered_done
unfolding start new_request new_state on_connection_acquired_with_ctx request_on signal notify_one
    on_response_body on_stream_complete completion
buffered_trace = ended (finished_trace false) refl refl refl

pub streamed_returned : streamed_end.caller.returned ≡ some streamed
unfolding start new_request new_state on_connection_acquired_with_ctx request_on signal notify_one
    on_response_body on_stream_complete streaming_round last_round next_round return_from told
    yield_chunks deliver_headers
streamed_returned = refl

streamed-Received_example : Received ((1 ∷ 2 ∷ []) ∷ []) (streamed_end.caller.yields)
streamed-Received_example =
    streamed-Received good_messages (options true) streamed (built_request true) refl streamed_trace
      streamed_returned

returned-released_example :
    (streamed_end.exchange.phase ≡ over)
    × (replay (streamed_end.exchange.calls) ≡ some nothing_held)
returned-released_example =
    returned-released good_messages (options true) streamed (built_request true) streamed_trace
      streamed_returned

complete-over_example :
    (completion (streamed_end.exchange.state) ≡ true) ↔ (streamed_end.exchange.phase ≡ over)
complete-over_example =
    complete-over good_messages (options true) (built_request true) streamed_trace

abbrev answer : HttpResponse
answer = record { status_code = pos 200; headers = []; body = 1 ∷ 2 ∷ [] }

buffered_returned : buffered_done.caller.returned ≡ some (responded answer)
unfolding start new_request new_state on_connection_acquired_with_ctx request_on signal notify_one
    on_response_body on_stream_complete buffered_end clean
buffered_returned = refl

returned-Answer_example : Answer ((1 ∷ 2 ∷ []) ∷ []) (responded answer)
returned-Answer_example =
    returned-Answer good_messages (options false) (responded answer) (built_request false) refl
      buffered_trace buffered_returned

-- A path that the CRT refuses.
abbrev bad_messages : MessageAnswers
bad_messages = record good_messages { set_request_path = λ p. negsuc 0; last_error = pos 34 }

build_request-released_example :
    (release message ∷ acquire message ∷ [] ≡ only_message true) × (pos 34 ≡ pos 34)
unfolding build_request
build_request-released_example =
    build_request-released bad_messages (options true) (pos 34)
      (release message ∷ acquire message ∷ []) refl

-- A streaming request waits when it was built, and no other step of the caller comes.
one_wait : (b : Bool) → Callbacks (λ n. true) ((start (request b)).exchange) ((finished b).exchange)
unfolding start new_request new_state on_connection_acquired_with_ctx request_on signal notify_one
    on_response_headers push_headers set_status on_response_body on_stream_complete
one_wait true =
    completes
      (has_body
        (has_headers (acquires quiet refl (some 7) (pos 0) good_stream) refl (pos 200) [] refl) refl
        refl (1 ∷ 2 ∷ []))
      refl (pos 0)
one_wait false =
    completes
      (has_body
        (has_headers (acquires quiet refl (some 7) (pos 0) good_stream) refl (pos 200) [] refl) refl
        refl (1 ∷ 2 ∷ []))
      refl (pos 0)

done-notified_example :
    (start (request true)).exchange.notified < ((got_body true).exchange).notified
unfolding start new_request new_state on_connection_acquired_with_ctx request_on signal notify_one
    on_response_headers push_headers set_status on_response_body chunk_or_completion
done-notified_example =
    done-notified {room = λ n. true} for_chunk_or_completion {x = (start (request true)).exchange}
      refl
      (has_body
        (has_headers (acquires quiet refl (some 7) (pos 0) good_stream) refl (pos 200) [] refl) refl
        refl (1 ∷ 2 ∷ []))
      refl

over-woken_example :
    ((start (request false)).exchange.notified < (finished false).exchange.notified)
    × (is_done for_completion ((finished false).exchange.state) ≡ true)
    × (is_none ((resume for_completion (finished false)).caller.returned) ≡ false)
unfolding start new_request new_state on_connection_acquired_with_ctx request_on signal notify_one
    on_response_body on_stream_complete completion
over-woken_example =
    over-woken {room = λ n. true} good_messages (options false) for_completion (built_request false)
      started refl (one_wait false) refl
