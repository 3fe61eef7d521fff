-- ===== src/S3/Request/Answered.antt =====
-- What get_object and put_object of ext/aws_crt/src/s3_request.rs return, in terms of what the CRT
-- accepts and reports.
use aws_crt.Prelude.{
  Bool, Bool-cases, List, Option, [], codes, false, if◌then◌else◌, inl, inr, none, refl, some, true,
  ℕ, ◌&&◌, ◌∷◌, ◌≡◌,
}
use aws_crt.Prelude.Int.{ℤ}
use aws_crt.Crt.Resource.{http_message, input_stream, meta_request}
use aws_crt.Crt.Gives.{
  Gives, Gives-bind, Gives-check_or, Gives-create, Gives-destroy, Gives-expect, Gives-made,
  Gives-pure, Gives-recover,
}
use aws_crt.Http.State.{Header}
use aws_crt.S3.Message.{
  HttpMessage, MessageAnswers, add_headers, build_s3_request_message, host_of, request_path,
}
use aws_crt.S3.Transfer.{S3Result, extract_result, new_shared_state, wait_for_completion}
use aws_crt.S3.Transfer.Told.{extract_result-told, told}
use aws_crt.S3.Options.{
  AwsS3MetaRequestOptions, GetObjectOptions, PutObjectOptions, Report, RequestAnswers,
  extra_headers, fits_c_string, get_options, put_options, streamed_body,
}
use aws_crt.S3.Request.{
  execute, get_object, get_with, local_failure, put_object, put_stream, put_with, release_request,
}

-- The CRT takes the message with its method, its path and all its headers.
abbrev accepts_all : MessageAnswers → List Header → Bool
accepts_all a [] = true
accepts_all a (x ∷ xs) = a.add_header x && accepts_all a xs

abbrev pub accepts : MessageAnswers → HttpMessage → Bool
accepts a m =
    a.message_made
    && (a.set_request_method (m.method)
        && (a.set_request_path (m.path) && accepts_all a (m.headers)))

-- The message of an operation.
abbrev pub message_of : List ℕ → List ℕ → List ℕ → List ℕ → List Header → HttpMessage
message_of method bucket key region extra = record {
  method = method;
  path = request_path key;
  headers = (codes "Host", host_of bucket region) ∷ extra;
  body_stream = none;
}

add_headers-Gives :
    (a : MessageAnswers) (extra : List Header)
    → Gives (add_headers a extra) (accepts_all a extra) tt (a.last_error)
unfolding add_headers
add_headers-Gives a [] = Gives-pure tt
add_headers-Gives a (x ∷ xs) =
    Gives-bind _ (Gives-check_or (a.add_header x) http_message) (add_headers-Gives a xs)

and_true : (b : Bool) → b && true ≡ b
and_true true = refl
and_true false = refl

build-Gives :
    (a : MessageAnswers) (method bucket key region : List ℕ) (extra : List Header)
    → Gives
        (build_s3_request_message a method bucket key region extra)
        (accepts a (message_of method bucket key region extra))
        (message_of method bucket key region extra)
        (a.last_error)
unfolding build_s3_request_message
build-Gives a method bucket key region extra = rw (← and_true (accepts_all a extra)) (
    Gives-bind _ (Gives-create http_message [] _) (
      Gives-bind _ (Gives-check_or _ http_message) (
        Gives-bind _ (Gives-check_or _ http_message) (
          Gives-bind _ (Gives-check_or _ http_message)
            (Gives-bind _ (add_headers-Gives a extra) (Gives-pure _))))))

module _ (a : RequestAnswers) where
  -- The result of a request that is made, by the CRT's report on it.
  abbrev pub reported : AwsS3MetaRequestOptions → Bool → Option Report → S3Result
  reported options include_body none = local_failure a (a.last_error)
  reported options include_body (some report) = extract_result include_body (
      wait_for_completion (a.names) (options.body_callback) (report.events) (report.result)
        new_shared_state)

  release_request-Gives :
      {code : ℤ} (has_stream : Bool) → Gives (release_request a has_stream) true tt code
  unfolding release_request
  release_request-Gives true =
      Gives-bind _ (Gives-destroy input_stream) (Gives-destroy http_message)
  release_request-Gives false = Gives-bind _ (Gives-pure tt) (Gives-destroy http_message)

  execute-Gives :
      {code : ℤ} (has_stream : Bool) (options : AwsS3MetaRequestOptions) (include_body : Bool)
      (report : Option Report)
      → Gives
          (execute a has_stream options include_body report)
          true
          (reported options include_body report)
          code
  unfolding execute
  execute-Gives has_stream options include_body none =
      Gives-bind _ (release_request-Gives has_stream) (Gives-pure _)
  execute-Gives has_stream options include_body (some report) =
      Gives-bind _ (Gives-made meta_request _ _) (
        Gives-bind _ (Gives-destroy meta_request)
          (Gives-bind _ (release_request-Gives has_stream) (Gives-pure _)))

  -- The same in terms of the report alone.
  abbrev pub answer : AwsS3MetaRequestOptions → Option Report → S3Result
  answer options none = local_failure a (a.last_error)
  answer options (some report) =
      told (a.names) (options.body_callback) (report.events) (report.result)

  abbrev pub answered : AwsS3MetaRequestOptions → S3Result
  answered options = answer options (a.make_meta_request options)

  reported-answer :
      (options : AwsS3MetaRequestOptions) (report : Option Report)
      → reported options (options.body_callback) report ≡ answer options report
  reported-answer options none = refl
  reported-answer options (some report) =
      extract_result-told (a.names) _ (report.events) (report.result)

  module _ (options : GetObjectOptions) where
    abbrev get_message : HttpMessage
    get_message = message_of (codes "GET") (options.bucket) (options.key) (options.region) []

    abbrev pub get_answer : S3Result
    get_answer =
        if accepts (a.message_calls) get_message
        then answered (get_options options get_message)
        else local_failure a (a.message_calls.last_error)

    get_with-Gives :
        {code : ℤ}
        → fits_c_string (options.recv_filepath) ≡ true
        → Gives
            (get_with a options get_message)
            true
            (answered (get_options options get_message))
            code
    unfolding get_with get_options
    get_with-Gives fits =
        rw
          (← reported-answer (get_options options get_message)
            (a.make_meta_request (get_options options get_message)))
          (Gives-bind _ (Gives-expect _ fits) (execute-Gives false _ _ _))

    -- get_object returns what the CRT's report on the request says when the CRT accepts the message and
    -- takes the request on, and its own error when it does not; the path of the file has no zero byte.
    pub get_object-Gives :
        {code : ℤ}
        → fits_c_string (options.recv_filepath) ≡ true
        → Gives (get_object a options) true get_answer code
    unfolding get_object
    get_object-Gives fits =
        Gives-recover (local_failure a) _ (build-Gives (a.message_calls) _ _ _ _ _)
          (get_with-Gives fits)

  module _ (options : PutObjectOptions) where
    abbrev put_message : Option (List ℕ) → HttpMessage
    put_message body =
        record (message_of (codes "PUT") (options.bucket) (options.key) (options.region)
          (extra_headers options)) { body_stream = body }

    abbrev put_body_answer : Option (List ℕ) → S3Result
    put_body_answer none = answered (put_options options (put_message none))
    put_body_answer (some bytes) =
        if a.stream_made bytes
        then answered (put_options options (put_message (some bytes)))
        else local_failure a (a.last_error)

    abbrev pub put_answer : S3Result
    put_answer =
        if accepts (a.message_calls) (put_message none)
        then put_body_answer (streamed_body options)
        else local_failure a (a.message_calls.last_error)

    put_with-Gives :
        {code : ℤ} (has_stream : Bool) (request : HttpMessage)
        → fits_c_string (options.send_filepath) ≡ true
        → Gives
            (put_with a options has_stream request)
            true
            (answered (put_options options request))
            code
    unfolding put_with put_options
    put_with-Gives has_stream request fits =
        rw
          (← reported-answer (put_options options request)
            (a.make_meta_request (put_options options request)))
          (Gives-bind _ (Gives-expect _ fits) (execute-Gives has_stream _ _ _))

    put_stream-Gives :
        {code : ℤ} (body : Option (List ℕ))
        → fits_c_string (options.send_filepath) ≡ true
        → Gives (put_stream a options (put_message none) body) true (put_body_answer body) code
    unfolding put_stream
    put_stream-Gives none fits = put_with-Gives false _ fits
    put_stream-Gives (some bytes) fits = elim (Bool-cases (a.stream_made bytes)) [
      | inl e ↦ rw e (Gives-bind _ (Gives-made input_stream [] _) (put_with-Gives true _ fits))
      | inr e ↦ rw e (Gives-bind _ (Gives-destroy http_message) (Gives-pure _))
    ]

    -- put_object does the same with the message that has the body as its stream, where there is one.
    pub put_object-Gives :
        {code : ℤ}
        → fits_c_string (options.send_filepath) ≡ true
        → Gives (put_object a options) true put_answer code
    unfolding put_object
    put_object-Gives fits =
        Gives-recover (local_failure a) _ (build-Gives (a.message_calls) _ _ _ _ _)
          (put_stream-Gives (streamed_body options) fits)
