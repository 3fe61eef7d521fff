-- ===== src/S3/Message.antt =====
-- The HTTP message that ext/aws_crt/src/s3_request.rs builds for an S3 operation.
pub mod Built
use aws_crt.Prelude.{Bool, List, Option, [], codes, if◌then◌else◌, none, starts_with, ℕ, ◌++◌, ◌∷◌}
use aws_crt.Prelude.Int.{ℤ}
use aws_crt.Http.State.{Header}
use aws_crt.Crt.Resource.{http_message}
use aws_crt.Crt.Action.{M, check_or, create, pure, ◌>>=◌, ◌>>◌}

pub record HttpMessage : Type 0 where
  pub method : List ℕ
  pub path : List ℕ
  pub headers : List Header
  pub body_stream : Option (List ℕ)

-- The CRT's answers to the calls on the message.
pub record MessageAnswers : Type 0 where
  pub message_made : Bool
  pub set_request_method : List ℕ → Bool
  pub set_request_path : List ℕ → Bool
  pub add_header : Header → Bool
  pub last_error : ℤ

unfoldable pub request_path : List ℕ → List ℕ
request_path key = if starts_with key (codes "/") then key else codes "/" ++ key

unfoldable pub host_of : List ℕ → List ℕ → List ℕ
host_of bucket region = bucket ++ codes ".s3." ++ region ++ codes ".amazonaws.com"

unfoldable pub add_headers : MessageAnswers → List Header → M (Unit {0})
add_headers a [] = pure tt
add_headers a (h ∷ hs) = do check_or (a.add_header h) http_message (a.last_error); add_headers a hs

unfoldable pub build_s3_request_message :
    MessageAnswers → List ℕ → List ℕ → List ℕ → List ℕ → List Header → M HttpMessage
build_s3_request_message a method bucket key region extra =
    let host : Header = (codes "Host", host_of bucket region) in
    (do
      create http_message [] (a.message_made) (a.last_error)
      check_or (a.set_request_method method) http_message (a.last_error)
      check_or (a.set_request_path (request_path key)) http_message (a.last_error)
      check_or (a.add_header host) http_message (a.last_error)
      add_headers a extra
      pure (record {
        method = method;
        path = request_path key;
        headers = host ∷ extra;
        body_stream = none;
      }))
