-- ===== src/Error.antt =====
-- ext/aws_crt/src/error.rs: the errors of the CRT, and the Ruby exception that each becomes.
pub mod Classes
pub mod Exact
pub mod Tests
use aws_crt.Prelude.{
  List, Option, codes, if◌then◌else◌, ltb, none, same_bytes, some, starts_with, suc, zero, ℕ, ◌%◌,
  ◌++◌, ◌+◌, ◌/◌, ◌||◌, ◌∷◌,
}
use aws_crt.Prelude.Int.{negsuc, pos, ℤ}

pub record CrtError : Type 0 where
  pub code : ℤ
  pub name : List ℕ
  pub message : List ℕ

-- The exception classes that define_http_errors registers below AwsCrt::Http.
pub data ExceptionClass : Type 0 where
  error : ExceptionClass
  connection_error : ExceptionClass
  timeout_error : ExceptionClass
  tls_error : ExceptionClass
  proxy_error : ExceptionClass

abbrev text_or : List ℕ → Option (List ℕ) → List ℕ
text_or default none = default
text_or default (some text) = text

-- aws_error_name and aws_error_str give `none` for a null pointer.
unfoldable pub from_code : (ℤ → Option (List ℕ)) → (ℤ → Option (List ℕ)) → ℤ → CrtError
from_code aws_error_name aws_error_str code = record {
  code = code;
  name = text_or (codes "UNKNOWN") (aws_error_name code);
  message = text_or (codes "Unknown CRT error") (aws_error_str code);
}

unfoldable pub classify_error : List ℕ → ExceptionClass
classify_error name =
    if starts_with name (codes "AWS_IO_TLS_") || same_bytes name (codes "AWS_IO_TLS_CTX_ERROR")
    then tls_error
    else if starts_with name (codes "AWS_IO_DNS_")
    then connection_error
    else if same_bytes name (codes "AWS_IO_SOCKET_TIMEOUT")
    then timeout_error
    else if starts_with name (codes "AWS_IO_SOCKET_")
    then connection_error
    else if starts_with name (codes "AWS_ERROR_HTTP_PROXY_")
    then proxy_error
    else error

-- The decimal digits of a number, the most significant first, in front of a text.
unfoldable pub digits : ℕ → ℕ → List ℕ → List ℕ
digits zero n rest = rest
digits (suc places) n rest =
    let shown = (48 + n % 10) ∷ rest in
    let more = digits places (n / 10) shown in if ltb n 10 then shown else more

-- Ten places are enough for an i32.
unfoldable pub display_code : ℤ → List ℕ → List ℕ
display_code (pos n) rest = digits 10 n rest
display_code (negsuc n) rest = 45 ∷ digits 10 (suc n) rest

-- "{name}: {message} ({code})"
unfoldable pub display : CrtError → List ℕ
display e = e.name ++ codes ": " ++ e.message ++ codes " (" ++ display_code (e.code) (codes ")")

-- The conversion into a Ruby exception: its class and its message.
unfoldable pub into_error : CrtError → ExceptionClass × List ℕ
into_error e = (classify_error (e.name), display e)
