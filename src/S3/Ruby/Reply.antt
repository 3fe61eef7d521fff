-- ===== src/S3/Ruby/Reply.antt =====
-- The hashes that the methods of ext/aws_crt/src/s3_ruby.rs return.
use aws_crt.Prelude.{List, Option, [], if◌then◌else◌, none, same_bytes, some, ℕ, ◌∷◌}
use aws_crt.Prelude.Int.{ℤ}
use aws_crt.Http.State.{Header}
use aws_crt.S3.Transfer.{S3ErrorData, S3Response, S3Result, err, ok}

-- A Ruby hash of strings, in the order of its first insertions: storing under a key that is there
-- replaces its value.
unfoldable pub aset : List ℕ → List ℕ → List Header → List Header
aset name text [] = (name, text) ∷ []
aset name text ((n, t) ∷ rest) =
    let more = aset name text rest in if same_bytes n name then (n, text) ∷ rest else (n, t) ∷ more

unfoldable pub fetch : List ℕ → List Header → Option (List ℕ)
fetch name [] = none
fetch name ((n, t) ∷ rest) =
    let more = fetch name rest in if same_bytes n name then some t else more

unfoldable pub store_headers : List Header → List Header → List Header
store_headers hash [] = hash
store_headers hash ((name, text) ∷ rest) = store_headers (aset name text hash) rest

-- The keys of the hash of a success, and of an error.
pub data ResponseHash : Type 0 where
  success :
      (status_code : ℤ) (headers : List Header) (body : Option (List ℕ))
      (checksum_validated : Option (List ℕ))
      → ResponseHash
  failure : (error_code status_code : ℤ) (headers : List Header) (body : List ℕ) → ResponseHash

unfoldable pub build_success_hash : S3Response → ResponseHash
build_success_hash r =
    success (r.status_code) (store_headers [] (r.headers)) (r.body) (r.checksum_validated)

unfoldable pub build_error_hash : S3ErrorData → ResponseHash
build_error_hash e = failure (e.error_code) (e.status_code) (store_headers [] (e.headers)) (e.body)

unfoldable pub build_hash : S3Result → ResponseHash
build_hash (ok response) = build_success_hash response
build_hash (err error) = build_error_hash error

-- The last value that a list of headers gives a name.
abbrev pub or_later : Option (List ℕ) → Option (List ℕ) → Option (List ℕ)
or_later before none = before
or_later before (some text) = some text

abbrev pub last_value : List ℕ → List Header → Option (List ℕ)
last_value name [] = none
last_value name ((n, t) ∷ rest) =
    or_later (if same_bytes n name then some t else none) (last_value name rest)
