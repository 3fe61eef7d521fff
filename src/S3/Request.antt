-- ===== src/S3/Request.antt =====
-- get_object and put_object of ext/aws_crt/src/s3_request.rs.
pub mod Released
pub mod Answered
pub mod Lengths
use aws_crt.Prelude.{
  Bool, List, Option, [], codes, false, if◌then◌else◌, none, not, some, true, ℕ, ◌∷◌,
}
use aws_crt.Prelude.Int.{negsuc, pos, ℤ}
use aws_crt.Crt.Resource.{credentials_provider, http_message, input_stream, meta_request, s3_client}
use aws_crt.Crt.Action.{M, create, destroy, expect, pure, recover, ◌>>=◌, ◌>>◌}
use aws_crt.Error.{display, from_code}
use aws_crt.S3.Message.{HttpMessage, build_s3_request_message}
use aws_crt.S3.Transfer.{
  S3Result, body_callback, err, extract_result, new_shared_state, wait_for_completion,
}
use aws_crt.S3.Options.{
  AwsS3MetaRequestOptions, GetObjectOptions, PutObjectOptions, Report, RequestAnswers,
  extra_headers, fits_c_string, get_options, is_some, put_options, streamed_body,
}

module _ (a : RequestAnswers) where
  -- The error of a request that the CRT never took on.
  unfoldable pub local_failure : ℤ → S3Result
  local_failure code = err (record {
    error_code = negsuc 0;
    status_code = pos 0;
    headers = [];
    body = display (from_code (a.aws_error_name) (a.aws_error_str) code);
  })

  -- The release of the input stream, where there is one, and of the message.
  unfoldable pub release_request : Bool → M (Unit {0})
  release_request has_stream = do
    (if has_stream then destroy input_stream else pure tt)
    destroy http_message

  -- The request is made, awaited and released; its state is read behind that.
  unfoldable pub execute : Bool → AwsS3MetaRequestOptions → Bool → Option Report → M S3Result
  execute has_stream options include_body none = do
    release_request has_stream
    pure (local_failure (a.last_error))
  execute has_stream options include_body (some report) = do
    create meta_request (s3_client ∷ credentials_provider ∷ http_message ∷ []) true (a.last_error)
    destroy meta_request
    release_request has_stream
    pure (
        extract_result include_body (
          wait_for_completion (a.names) (options.body_callback) (report.events) (report.result)
            new_shared_state))

  unfoldable pub get_with : GetObjectOptions → HttpMessage → M S3Result
  get_with options request =
      let meta_options = get_options options request in
      (do
        expect (fits_c_string (options.recv_filepath))
        execute false meta_options (not (is_some (options.recv_filepath)))
            (a.make_meta_request meta_options))

  unfoldable pub get_object : GetObjectOptions → M S3Result
  get_object options =
      recover
        (build_s3_request_message (a.message_calls) (codes "GET") (options.bucket) (options.key)
          (options.region) [])
        local_failure (get_with options)

  unfoldable pub put_with : PutObjectOptions → Bool → HttpMessage → M S3Result
  put_with options has_stream request =
      let meta_options = put_options options request in
      (do
        expect (fits_c_string (options.send_filepath))
        execute has_stream meta_options false (a.make_meta_request meta_options))

  -- Without an input stream for the body the message is released at once.
  unfoldable pub put_stream : PutObjectOptions → HttpMessage → Option (List ℕ) → M S3Result
  put_stream options request none = put_with options false request
  put_stream options request (some bytes) =
      if a.stream_made bytes
      then (do
        create input_stream [] true (a.last_error)
        put_with options true (record request { body_stream = some bytes }))
      else (do destroy http_message; pure (local_failure (a.last_error)))

  unfoldable pub put_object : PutObjectOptions → M S3Result
  put_object options =
      recover
        (build_s3_request_message (a.message_calls) (codes "PUT") (options.bucket) (options.key)
          (options.region) (extra_headers options))
        local_failure (λ request. put_stream options request (streamed_body options))
