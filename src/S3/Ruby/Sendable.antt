-- ===== src/S3/Ruby/Sendable.antt =====
-- What put_object of ext/aws_crt/src/s3_ruby.rs hands on of a hash that it has read.
use aws_crt.Prelude.{
  Bool, Bool-cases, List, Option, [], codes, false, if◌then◌else◌, inl, inr, leb, none, refl,
  same_bytes, some, true, ℕ, ◌&&◌, ◌||◌, ◌∷◌, ◌≡◌,
}
use aws_crt.S3.Client.{SigningConfig}
use aws_crt.S3.Transfer.{is_empty}
use aws_crt.S3.Options.{cursor_of, is_some, parse_checksum_algorithm, streamed_body}
use aws_crt.S3.Ruby.{
  Outcome, Ruby, error, hash_get_optional_u64, hash_get_string, hash_get_string_required,
  hash_get_value, value, ◌>>=◌,
}
use aws_crt.S3.Ruby.Params.{
  PutParams, algorithm_or_error, body_source, checksum_algorithm_of, put_params, source_of,
}
use aws_crt.S3.Ruby.Methods.{put_request}

-- A value that was read has a property.
abbrev pub Given : {A : Type 0} → (A → Type 0) → Outcome A → Type 0
Given P (value a) = P a
Given P (error e) = Unit {0}

Given-bind :
    {A B : Type 0} (Q : A → Type 0) (P : B → Type 0) (m : Outcome A) (f : A → Outcome B)
    → Given Q m
    → ((a : A) → Q a → Given P (f a))
    → Given P (m >>= f)
Given-bind Q P (value a) f g k = k a g
Given-bind Q P (error e) f g k = tt

any-Given : {A : Type 0} (m : Outcome A) → Given (λ a. Unit {0}) m
any-Given (value a) = tt
any-Given (error e) = tt

Given-next :
    {A B : Type 0} (P : B → Type 0) (m : Outcome A) (f : A → Outcome B)
    → ((a : A) → Given P (f a))
    → Given P (m >>= f)
Given-next P m f k = Given-bind (λ a. Unit {0}) P m f (any-Given m) (λ a g. k a)

-- An algorithm that the CRT knows, which is not its number for none.
abbrev pub known : Option ℕ → Bool
known none = true
known (some algo) = leb 1 algo && leb algo 4

abbrev pub not_empty : Option (List ℕ) → Option (List ℕ)
not_empty none = none
not_empty (some []) = none
not_empty (some (b ∷ bs)) = some (b ∷ bs)

-- The path and the body that are handed on, from the value of :body: neither without one, and otherwise
-- exactly one of them.
pub data Source {Value : Type 0} : Option Value → Option (List ℕ) → Option (List ℕ) → Type 0 where
  no_source : Source none none none
  from_path : (v : Value) (path : List ℕ) → Source (some v) (some path) none
  from_body : (v : Value) (bytes : List ℕ) → Source (some v) none (some bytes)

-- The body, when it is not empty, is what the request streams.
pub record Sendable {Value : Type 0} (found : Option Value) (p : PutParams) : Type 0 where
  pub source : Source found (p.send_filepath) (p.body)
  pub streamed :
      (region : List ℕ) (signing : SigningConfig)
      → streamed_body (put_request p region signing) ≡ not_empty (p.body)
  pub algorithm_known : known (p.checksum_algorithm) ≡ true

known-if :
    (b : Bool) (x y : Option ℕ)
    → known x ≡ true
    → known y ≡ true
    → known (if b then x else y) ≡ true
known-if true x y p q = p
known-if false x y p q = q

parse-known : (name : List ℕ) → known (parse_checksum_algorithm name) ≡ true
unfolding parse_checksum_algorithm
parse-known name = known-if (same_bytes name (codes "CRC32")) _ _ refl (
    known-if (same_bytes name (codes "CRC32C")) _ _ refl (
      known-if (same_bytes name (codes "SHA1")) _ _ refl
        (known-if (same_bytes name (codes "SHA256")) _ _ refl refl)))

checksum_algorithm_of-known :
    {Value Hash F : Type 0} (ruby : Ruby Value Hash F) (name : Option (List ℕ))
    → Given (λ algo. known algo ≡ true) (checksum_algorithm_of ruby name)
unfolding checksum_algorithm_of
checksum_algorithm_of-known ruby none = refl
checksum_algorithm_of-known ruby (some name) =
    parsed (parse_checksum_algorithm name) (parse-known name)
  where
    parsed :
        (algo : Option ℕ)
        → known algo ≡ true
        → Given (λ a. known a ≡ true) (algorithm_or_error ruby name algo)
    parsed none k = tt
    parsed (some algo) k = k

streams :
    {Value : Type 0} {found : Option Value} (path body : Option (List ℕ))
    → Source found path body
    → (if is_some path || is_empty (cursor_of body) then none else body) ≡ not_empty body
streams _ _ no_source = refl
streams _ _ (from_path v path) = refl
streams _ _ (from_body v []) = refl
streams _ _ (from_body v (b ∷ bs)) = refl

itself : {A : Type 0} (m : Outcome A) → Given (λ a. m ≡ value a) m
itself (value a) = refl
itself (error e) = tt

module _ {Value Hash F : Type 0} (ruby : Ruby Value Hash F) where
  -- The path and the body of the value.
  abbrev SourceOf : Option Value → Option (List ℕ) × Option (List ℕ) → Type 0
  SourceOf found (path, body) = Source found path body

  body_source-SourceOf : (v : Option Value) → Given (SourceOf v) (body_source ruby v)
  unfolding body_source
  body_source-SourceOf none = no_source
  body_source-SourceOf (some v) = read (ruby.to_rstring v)
    where
      read : (bytes : Option (List ℕ)) → Given (SourceOf (some v)) (source_of ruby v bytes)
      read (some bytes) = from_body v bytes
      read none = elim (Bool-cases (ruby.respond_to_path v)) [
        | inl e ↦ rw e (Given-next (SourceOf (some v)) (ruby.path v) _ (λ path. from_path v path))
        | inr e ↦ rw e (Given-next (SourceOf (some v)) (ruby.read v) _ (λ bytes. from_body v bytes))
      ]

  body_streamed :
      (found : Option Value) (p : PutParams)
      → Source found (p.send_filepath) (p.body)
      → (region : List ℕ) (signing : SigningConfig)
      → streamed_body (put_request p region signing) ≡ not_empty (p.body)
  unfolding streamed_body
  body_streamed found p one region signing = streams (p.send_filepath) (p.body) one

  -- What is handed on for the value of the key body.
  abbrev pub Handed : Hash → PutParams → Type 0
  Handed params p =
      (found : Option Value) × (hash_get_value ruby params (codes "body") ≡ value found)
      × Sendable found p

  -- Whatever hash put_object reads without an error: without a value for the key body, it hands on neither a
  -- path nor a body; with one, it hands on exactly one of them; a body that is not empty is what the request
  -- streams; and a checksum algorithm is one that the CRT knows.
  pub put_params-Sendable : (params : Hash) → Given (Handed params) (put_params ruby params)
  unfolding put_params
  put_params-Sendable params =
      let P = Handed params in
      let found = hash_get_value ruby params (codes "body") in
      Given-next P (hash_get_string_required ruby params (codes "bucket")) _ (λ bucket.
        Given-next P (hash_get_string_required ruby params (codes "key")) _ (λ key.
          Given-bind (λ v. found ≡ value v) P found _ (itself found)
            (λ body is_body.
              Given-next P (hash_get_optional_u64 ruby params (codes "content_length")) _ (λ length.
                Given-next P (hash_get_string ruby params (codes "content_type")) _ (λ content_type.
                  Given-next P (hash_get_string ruby params (codes "checksum_algorithm")) _ (λ name.
                    Given-next P (hash_get_value ruby params (codes "on_progress")) _
                      (λ on_progress.
                        Given-bind (λ algo. known algo ≡ true) P (checksum_algorithm_of ruby name) _
                          (checksum_algorithm_of-known ruby name)
                          (λ algo fine.
                            Given-bind (SourceOf body) P (body_source ruby body) _
                              (body_source-SourceOf body)
                              (λ source one. (
                                body,
                                is_body,
                                record {
                                  source = one;
                                  streamed = body_streamed body _ one;
                                  algorithm_known = fine;
                                },
                              ))))))))))
