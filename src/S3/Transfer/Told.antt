-- ===== src/S3/Transfer/Told.antt =====
-- What a request of ext/aws_crt/src/s3_request.rs returns, told from what the CRT reported.
use aws_crt.Prelude.{
  Bool, Bool-cases, List, Option, [], ap, append-nil, append_assoc, arith, false, if◌then◌else◌,
  inl, inr, none, not, refl, some, sym, true, ℕ, ◌++◌, ◌||◌, ◌∙◌, ◌∷◌, ◌≡◌,
}
use aws_crt.Prelude.Int.{negsuc, pos, ℤ}
use aws_crt.Http.State.{Header, is_zero}
use aws_crt.S3.Transfer.{
  ChecksumNames, Event, HttpHeaders, MetaRequestResult, MetaRequestState, S3ErrorData, S3Result,
  at_least_400, body_callback, body_came, body_for, copied_body, err, extract_result,
  finish_callback, headers_callback, headers_came, new_shared_state, ok, on_event,
  progress_callback, progressed, push_all, push_collection, store_error_response, validated_name,
  wait_for_completion,
}

-- The report, read without a state: the last status, every header that could be read, and the bytes of
-- the body in the order in which they came.
abbrev pub readable : List (Option Header) → List Header
readable [] = []
readable (none ∷ hs) = readable hs
readable (some h ∷ hs) = h ∷ readable hs

abbrev pub readable_in : HttpHeaders → List Header
readable_in none = []
readable_in (some hs) = readable hs

abbrev pub status_of : ℤ → List Event → ℤ
status_of status [] = status
status_of status (headers_came hs s ∷ es) = status_of s es
status_of status (body_came bytes ∷ es) = status_of status es
status_of status (progressed n ∷ es) = status_of status es

abbrev pub headers_of : List Event → List Header
headers_of [] = []
headers_of (headers_came hs s ∷ es) = readable_in hs ++ headers_of es
headers_of (body_came bytes ∷ es) = headers_of es
headers_of (progressed n ∷ es) = headers_of es

abbrev pub body_of : List Event → List ℕ
body_of [] = []
body_of (headers_came hs s ∷ es) = body_of es
body_of (body_came bytes ∷ es) = bytes ++ body_of es
body_of (progressed n ∷ es) = body_of es

-- An empty body is none, and a request without a body callback has none.
abbrev pub some_body : Bool → List ℕ → Option (List ℕ)
some_body with_body [] = none
some_body with_body (b ∷ bs) = if with_body then some (b ∷ bs) else none

-- A request is an error when the CRT's code is not 0 or the server's status is 400 or more.
abbrev pub is_failure : MetaRequestResult → Bool
is_failure r = not (is_zero (r.error_code)) || at_least_400 (r.response_status)

abbrev pub told_error : MetaRequestResult → S3ErrorData
told_error r =
    let http : Bool = at_least_400 (r.response_status) in
    record {
      error_code = r.error_code;
      status_code = if http then r.response_status else pos 0;
      headers = if http then readable_in (r.error_response_headers) else [];
      body = if http then copied_body [] (r.error_response_body) else [];
    }

abbrev pub told : ChecksumNames → Bool → List Event → MetaRequestResult → S3Result
told names with_body es r =
    if is_failure r
    then err (told_error r)
    else ok (record {
      status_code = status_of (pos 0) es;
      headers = headers_of es;
      body = some_body with_body (body_of es);
      checksum_validated = validated_name names r none;
    })

push_all_lem :
    (acc : List Header) (hs : List (Option Header)) → push_all acc hs ≡ acc ++ readable hs
unfolding push_all
push_all_lem acc [] = sym (append-nil acc)
push_all_lem acc (none ∷ hs) = push_all_lem acc hs
push_all_lem acc (some h ∷ hs) =
    push_all_lem (acc ++ (h ∷ [])) hs ∙ append_assoc acc (h ∷ []) (readable hs)

push_collection_lem :
    (acc : List Header) (hs : HttpHeaders) → push_collection acc hs ≡ acc ++ readable_in hs
push_collection_lem acc none = sym (append-nil acc)
push_collection_lem acc (some hs) = push_all_lem acc hs

-- The state after some of the callbacks.
abbrev so_far : ℤ → List Header → List ℕ → ℕ → MetaRequestState
so_far status headers body bytes = record new_shared_state {
  status_code = status;
  headers = headers;
  body = body;
  bytes_transferred = bytes;
}

abbrev told_with : ChecksumNames → ℤ → List Header → Option (List ℕ) → MetaRequestResult → S3Result
told_with names status headers body r =
    if is_failure r
    then err (told_error r)
    else ok (record {
      status_code = status;
      headers = headers;
      body = body;
      checksum_validated = validated_name names r none;
    })

no_status : at_least_400 (pos 0) ≡ false
unfolding at_least_400
no_status = refl

is_zero_lem : (code : ℤ) → is_zero code ≡ true → code ≡ pos 0
is_zero_lem (pos n) e = let z : n ≡ 0 = ground arith in ap pos z
is_zero_lem (negsuc n) e = cc

finished :
    (names : ChecksumNames) (with_body : Bool) (status : ℤ) (headers : List Header) (body : List ℕ)
    (n : ℕ) (r : MetaRequestResult)
    → extract_result with_body (finish_callback names r (so_far status headers body n))
      ≡ told_with names status headers (body_for with_body body) r
unfolding extract_result finish_callback store_error_response new_shared_state
finished names with_body status headers body n r =
    elim (Bool-cases (at_least_400 (r.response_status))) [
      | inl e ↦ elim (Bool-cases (is_zero (r.error_code))) [
        | inl f ↦ rw (e, f, e, push_collection_lem, is_zero_lem (r.error_code) f) refl
        | inr f ↦ rw (e, f, push_collection_lem) refl
      ]
      | inr e ↦ elim (Bool-cases (is_zero (r.error_code))) [
        | inl f ↦ rw (e, f, no_status) refl
        | inr f ↦ rw (e, f) refl
      ]
    ]

-- From any state before the end, with a body callback.
told_buffered :
    (names : ChecksumNames) (status : ℤ) (headers : List Header) (body : List ℕ) (n : ℕ)
    (es : List Event) (r : MetaRequestResult)
    → extract_result true (wait_for_completion names true es r (so_far status headers body n))
      ≡ told_with names
          (status_of status es)
          (headers ++ headers_of es)
          (body_for true (body ++ body_of es))
          r
unfolding wait_for_completion on_event headers_callback body_callback progress_callback
    new_shared_state
told_buffered names status headers body n [] r =
    rw (append-nil headers, append-nil body) (finished names true status headers body n r)
told_buffered names status headers body n (headers_came hs s ∷ es) r =
    rw (push_collection_lem headers hs, ← append_assoc headers (readable_in hs) (headers_of es))
      (told_buffered names s (headers ++ readable_in hs) body n es r)
told_buffered names status headers body n (body_came bytes ∷ es) r =
    rw (← append_assoc body bytes (body_of es))
      (told_buffered names status headers (body ++ bytes) n es r)
told_buffered names status headers body n (progressed bytes ∷ es) r =
    told_buffered names status headers body _ es r

-- The same without one: the body stays as it was.
told_unbuffered :
    (names : ChecksumNames) (status : ℤ) (headers : List Header) (n : ℕ) (es : List Event)
    (r : MetaRequestResult)
    → extract_result false (wait_for_completion names false es r (so_far status headers [] n))
      ≡ told_with names (status_of status es) (headers ++ headers_of es) none r
unfolding wait_for_completion on_event headers_callback progress_callback new_shared_state
told_unbuffered names status headers n [] r =
    rw (append-nil headers) (finished names false status headers [] n r)
told_unbuffered names status headers n (headers_came hs s ∷ es) r =
    rw (push_collection_lem headers hs, ← append_assoc headers (readable_in hs) (headers_of es))
      (told_unbuffered names s (headers ++ readable_in hs) n es r)
told_unbuffered names status headers n (body_came bytes ∷ es) r =
    told_unbuffered names status headers n es r
told_unbuffered names status headers n (progressed bytes ∷ es) r =
    told_unbuffered names status headers _ es r

-- Whatever the CRT reports, with or without a body callback, the result is what the report says: an
-- error when the code of the last callback is not 0 or its status is 400 or more, and otherwise the last
-- status, all headers in their order, and the bytes of all parts of the body, or none where there are
-- none or the request has no body callback.
pub extract_result-told :
    (names : ChecksumNames) (with_body : Bool) (es : List Event) (r : MetaRequestResult)
    → extract_result with_body (wait_for_completion names with_body es r new_shared_state)
      ≡ told names with_body es r
unfolding new_shared_state
extract_result-told names true es r =
    told_buffered names (pos 0) [] [] 0 es r
    ∙ ap (λ b. told_with names (status_of (pos 0) es) (headers_of es) b r) (same_body (body_of es))
  where
    same_body : (b : List ℕ) → body_for true b ≡ some_body true b
    same_body [] = refl
    same_body (x ∷ xs) = refl
extract_result-told names false es r =
    told_unbuffered names (pos 0) [] 0 es r
    ∙ ap (λ b. told_with names (status_of (pos 0) es) (headers_of es) b r) (no_body (body_of es))
  where
    no_body : (b : List ℕ) → none ≡ some_body false b
    no_body [] = refl
    no_body (x ∷ xs) = refl
