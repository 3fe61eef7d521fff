-- ===== src/S3/Request/Released.antt =====
-- What get_object and put_object of ext/aws_crt/src/s3_request.rs hold.
use aws_crt.Prelude.{
  Bool, List, Option, [], false, if◌then◌else◌, none, refl, some, true, ℕ, ◌&&◌, ◌∷◌, ◌≡◌,
}
use aws_crt.Crt.Resource.{
  Resource, all_in, credentials_provider, elem, http_message, input_stream, meta_request, s3_client,
}
use aws_crt.Crt.Runs.{
  Runs, Runs-bind, Runs-destroy, Runs-expect, Runs-if, Runs-made, Runs-pure, Runs-recover,
}
use aws_crt.S3.Message.{HttpMessage}
use aws_crt.S3.Message.Built.{build-Runs}
use aws_crt.S3.Options.{
  AwsS3MetaRequestOptions, GetObjectOptions, PutObjectOptions, Report, RequestAnswers,
  fits_c_string,
}
use aws_crt.S3.Request.{
  execute, get_object, get_with, local_failure, put_object, put_stream, put_with, release_request,
}

-- What the functions are called with: the client and the provider of the signing configuration.
abbrev pub ready : List Resource → Bool
ready h = elem s3_client h && elem credentials_provider h

-- What put_object holds when it calls the CRT.
abbrev pub taken : Bool → List Resource → List Resource
taken has_stream h = if has_stream then input_stream ∷ http_message ∷ h else http_message ∷ h

all_ready : (b c : Bool) → b && c ≡ true → b && (c && true) ≡ true
all_ready true true r = refl
all_ready true false r = r
all_ready false c r = r

needs_held :
    (h : List Resource) (has_stream : Bool)
    → ready h ≡ true
    → all_in (s3_client ∷ credentials_provider ∷ http_message ∷ []) (taken has_stream h) ≡ true
needs_held h true r = all_ready (elem s3_client h) (elem credentials_provider h) r
needs_held h false r = all_ready (elem s3_client h) (elem credentials_provider h) r

module _ {h bad : List Resource} (a : RequestAnswers) where
  release_request-Runs :
      (has_stream : Bool) → Runs (taken has_stream h) (release_request a has_stream) h bad
  unfolding release_request
  release_request-Runs true =
      Runs-bind (Runs-destroy input_stream refl) (λ _. Runs-destroy http_message refl)
  release_request-Runs false = Runs-bind (Runs-pure tt) (λ _. Runs-destroy http_message refl)

  execute-Runs :
      (has_stream : Bool) (options : AwsS3MetaRequestOptions) (include_body : Bool)
      (report : Option Report)
      → ready h ≡ true
      → Runs (taken has_stream h) (execute a has_stream options include_body report) h bad
  unfolding execute
  execute-Runs has_stream options include_body none r =
      Runs-bind (release_request-Runs has_stream) (λ _. Runs-pure _)
  execute-Runs has_stream options include_body (some report) r =
      Runs-bind (Runs-made meta_request _ _ (needs_held h has_stream r)) (λ _.
        Runs-bind (Runs-destroy meta_request refl)
          (λ _. Runs-bind (release_request-Runs has_stream) (λ _. Runs-pure _)))

  -- Where the path of the file has no zero byte, get_object gives back everything it took on every path,
  -- and returns a result rather than failing.
  pub get_object-Runs :
      (options : GetObjectOptions)
      → ready h ≡ true
      → fits_c_string (options.recv_filepath) ≡ true
      → Runs h (get_object a options) h bad
  unfolding get_object get_with
  get_object-Runs options r fits =
      Runs-recover (local_failure a) (build-Runs (a.message_calls) _ _ _ _ _)
        (λ request. Runs-bind (Runs-expect _ fits) (λ _. execute-Runs false _ _ _ r))

  put_with-Runs :
      (options : PutObjectOptions) (has_stream : Bool) (request : HttpMessage)
      → ready h ≡ true
      → fits_c_string (options.send_filepath) ≡ true
      → Runs (taken has_stream h) (put_with a options has_stream request) h bad
  unfolding put_with
  put_with-Runs options has_stream request r fits =
      Runs-bind (Runs-expect _ fits) (λ _. execute-Runs has_stream _ _ _ r)

  put_stream-Runs :
      (options : PutObjectOptions) (request : HttpMessage) (bytes : Option (List ℕ))
      → ready h ≡ true
      → fits_c_string (options.send_filepath) ≡ true
      → Runs (http_message ∷ h) (put_stream a options request bytes) h bad
  unfolding put_stream
  put_stream-Runs options request none r fits = put_with-Runs options false request r fits
  put_stream-Runs options request (some bytes) r fits =
      Runs-if (a.stream_made bytes)
        (Runs-bind (Runs-made input_stream [] _ refl) (λ _. put_with-Runs options true _ r fits))
        (Runs-bind (Runs-destroy http_message refl) (λ _. Runs-pure _))

  -- Where the path of the file has no zero byte, and the client and the provider of the signing
  -- configuration are held: put_object gives back the message, the input stream of a body and the request
  -- on every path, uses none of them when it is not held, and returns a result rather than failing.
  pub put_object-Runs :
      (options : PutObjectOptions)
      → ready h ≡ true
      → fits_c_string (options.send_filepath) ≡ true
      → Runs h (put_object a options) h bad
  unfolding put_object
  put_object-Runs options r fits =
      Runs-recover (local_failure a) (build-Runs (a.message_calls) _ _ _ _ _)
        (λ request. put_stream-Runs options request _ r fits)
