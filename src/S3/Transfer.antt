-- ===== src/S3/Transfer.antt =====
-- The state that the callbacks of ext/aws_crt/src/s3_request.rs share with the waiting thread.
pub mod Told
pub mod Waits
use aws_crt.Prelude.{
  Bool, List, Option, [], false, if◌then◌else◌, leb, none, not, some, true, ℕ, ◌%◌, ◌&&◌, ◌++◌, ◌+◌,
  ◌^◌, ◌∷◌,
}
use aws_crt.Prelude.Int.{negsuc, pos, ℤ}
use aws_crt.Http.State.{Header, is_zero}

pub record MetaRequestState : Type 0 where
  pub status_code : ℤ
  pub headers : List Header
  pub body : List ℕ
  pub error_code : ℤ
  pub error_response_status : ℤ
  pub error_response_headers : List Header
  pub error_response_body : List ℕ
  pub checksum_validated : Option (List ℕ)
  pub bytes_transferred : ℕ
  pub complete : Bool

unfoldable pub new_shared_state : MetaRequestState
new_shared_state = record {
  status_code = pos 0;
  headers = [];
  body = [];
  error_code = pos 0;
  error_response_status = pos 0;
  error_response_headers = [];
  error_response_body = [];
  checksum_validated = none;
  bytes_transferred = 0;
  complete = false;
}

-- A collection of headers of the CRT: `none` for a null pointer, and `none` in the list where
-- aws_http_headers_get_index fails.
abbrev pub HttpHeaders : Type 0
HttpHeaders = Option (List (Option Header))

unfoldable pub push_all : List Header → List (Option Header) → List Header
push_all acc [] = acc
push_all acc (none ∷ hs) = push_all acc hs
push_all acc (some h ∷ hs) = push_all (acc ++ (h ∷ [])) hs

abbrev pub push_collection : List Header → HttpHeaders → List Header
push_collection acc none = acc
push_collection acc (some hs) = push_all acc hs

unfoldable pub headers_callback : HttpHeaders → ℤ → MetaRequestState → MetaRequestState
headers_callback hs response_status s = record s {
  status_code = response_status;
  headers = push_collection (s.headers) hs;
}

unfoldable pub body_callback : List ℕ → MetaRequestState → MetaRequestState
body_callback bytes s = record s { body = s.body ++ bytes }

-- The sum wraps around.
unfoldable pub progress_callback : ℕ → MetaRequestState → MetaRequestState
progress_callback bytes s = record s { bytes_transferred = (s.bytes_transferred + bytes) % 2 ^ 64 }

-- `none` for a null pointer; a null buffer is an empty one.
pub record MetaRequestResult : Type 0 where
  pub error_response_headers : HttpHeaders
  pub error_response_body : Option (List ℕ)
  pub response_status : ℤ
  pub did_validate : Bool
  pub validation_algorithm : ℤ
  pub error_code : ℤ

-- The CRT's names of its checksum algorithms, and the test of std::str::from_utf8.
pub record ChecksumNames : Type 0 where
  pub algorithm_name : ℤ → List ℕ
  pub is_utf8 : List ℕ → Bool

unfoldable pub at_least_400 : ℤ → Bool
at_least_400 (pos n) = leb 400 n
at_least_400 (negsuc n) = false

abbrev pub is_empty : List ℕ → Bool
is_empty [] = true
is_empty (b ∷ bs) = false

abbrev pub copied_body : List ℕ → Option (List ℕ) → List ℕ
copied_body old none = old
copied_body old (some bytes) = if is_empty bytes then old else bytes

unfoldable pub store_error_response : MetaRequestResult → MetaRequestState → MetaRequestState
store_error_response r s =
    if at_least_400 (r.response_status)
    then record s {
      error_response_status = r.response_status;
      error_response_headers =
          push_collection (s.error_response_headers) (r.error_response_headers);
      error_response_body = copied_body (s.error_response_body) (r.error_response_body);
    }
    else s

unfoldable pub validated_name :
    ChecksumNames → MetaRequestResult → Option (List ℕ) → Option (List ℕ)
validated_name names r old =
    let name = names.algorithm_name (r.validation_algorithm) in
    if r.did_validate && not (is_zero (r.validation_algorithm))
    then (if not (is_empty name) && names.is_utf8 name then some name else old)
    else old

unfoldable pub finish_callback :
    ChecksumNames → MetaRequestResult → MetaRequestState → MetaRequestState
finish_callback names r s =
    let stored = store_error_response r (record s { error_code = r.error_code }) in
    record stored {
      checksum_validated = validated_name names r (stored.checksum_validated);
      complete = true;
    }

-- The callbacks of one request before finish_callback, which the CRT calls once, behind all others.
pub data Event : Type 0 where
  headers_came : HttpHeaders → ℤ → Event
  body_came : List ℕ → Event
  progressed : ℕ → Event

-- The body callback is a null pointer in some requests.
unfoldable pub on_event : Bool → Event → MetaRequestState → MetaRequestState
on_event with_body (headers_came hs status) s = headers_callback hs status s
on_event with_body (body_came bytes) s = if with_body then body_callback bytes s else s
on_event with_body (progressed bytes) s = progress_callback bytes s

-- The waiting thread wakes up for good when `complete` is set.
unfoldable pub wait_for_completion :
    ChecksumNames → Bool → List Event → MetaRequestResult → MetaRequestState → MetaRequestState
wait_for_completion names with_body [] r s = finish_callback names r s
wait_for_completion names with_body (e ∷ es) r s =
    let rest = wait_for_completion names with_body es r (on_event with_body e s) in
    if s.complete then s else rest

pub record S3Response : Type 0 where
  pub status_code : ℤ
  pub headers : List Header
  pub body : Option (List ℕ)
  pub checksum_validated : Option (List ℕ)

pub record S3ErrorData : Type 0 where
  pub error_code : ℤ
  pub status_code : ℤ
  pub headers : List Header
  pub body : List ℕ

pub data S3Result : Type 0 where
  ok : S3Response → S3Result
  err : S3ErrorData → S3Result

abbrev pub body_for : Bool → List ℕ → Option (List ℕ)
body_for include_body body =
    if include_body then (if is_empty body then none else some body) else none

unfoldable pub extract_result : Bool → MetaRequestState → S3Result
extract_result include_body s =
    if not (is_zero (s.error_code))
    then err (record {
      error_code = s.error_code;
      status_code = s.error_response_status;
      headers = s.error_response_headers;
      body = s.error_response_body;
    })
    else if at_least_400 (s.error_response_status)
    then err (record {
      error_code = pos 0;
      status_code = s.error_response_status;
      headers = s.error_response_headers;
      body = s.error_response_body;
    })
    else ok (record {
      status_code = s.status_code;
      headers = s.headers;
      body = body_for include_body (s.body);
      checksum_validated = s.checksum_validated;
    })
