-- ===== src/S3/Ruby/Methods.antt =====
-- The methods of AwsCrt::S3::Client in ext/aws_crt/src/s3_ruby.rs. Each reads its hashes first; what it
-- then does with the CRT fails with the CrtError that becomes a Ruby exception.
pub mod Held
pub mod Life
pub mod Sent
use aws_crt.Prelude.{List, Option, none, some, ℕ}
use aws_crt.Crt.Resource.{credentials_provider}
use aws_crt.Crt.Action.{M, owning, pure, scoped, ◌>>=◌, ◌>>◌}
use aws_crt.S3.Client.{
  ClientAnswers, CredentialsProvider, S3Client, S3ClientOptions, SigningConfig, drop_client,
  new_client, new_s3, new_static,
}
use aws_crt.S3.Transfer.{S3Result}
use aws_crt.S3.Options.{GetObjectOptions, PutObjectOptions, RequestAnswers}
use aws_crt.S3.Request.{get_object, put_object}
use aws_crt.S3.Ruby.{Outcome, Ruby, and_then, error, s3_client_not_initialized, value}
use aws_crt.S3.Ruby.Reply.{ResponseHash, build_hash}
use aws_crt.S3.Ruby.Params.{
  GetParams, PutParams, client_options, get_params, put_params, request_credentials,
}

-- `inner`, which is empty before initialize.
pub record RubyS3Client (F : Type 0) : Type 0 where
  pub inner : Option (S3Client F)

abbrev pub drop_inner : {F : Type 0} → Option (S3Client F) → M (Unit {0})
drop_inner none = pure tt
drop_inner (some client) = drop_client

abbrev pub if_initialized :
    {A F : Type 0} → Option (S3Client F) → (S3Client F → Outcome A) → Outcome A
if_initialized none f = error s3_client_not_initialized
if_initialized (some client) f = f client

unfoldable pub with_client : {A F : Type 0} → RubyS3Client F → (S3Client F → Outcome A) → Outcome A
with_client rb_self f = if_initialized (rb_self.inner) f

abbrev pub get_request : GetParams → List ℕ → SigningConfig → GetObjectOptions
get_request p region signing = record {
  signing_config = signing;
  bucket = p.bucket;
  key = p.key;
  region = region;
  recv_filepath = p.recv_filepath;
  validate_checksum = p.validate_checksum;
}

abbrev pub put_request : PutParams → List ℕ → SigningConfig → PutObjectOptions
put_request p region signing = record {
  signing_config = signing;
  bucket = p.bucket;
  key = p.key;
  region = region;
  send_filepath = p.send_filepath;
  body = p.body;
  content_length = p.content_length;
  content_type = p.content_type;
  checksum_algorithm = p.checksum_algorithm;
}

module _ {F : Type 0} (a : ClientAnswers F) where
  -- The new client takes the place of the old one, which is dropped.
  unfoldable pub initialize_with : RubyS3Client F → S3ClientOptions F → M (RubyS3Client F)
  initialize_with rb_self options = do
    client ← new_client a options
    drop_inner (rb_self.inner)
    pure (record { inner = some client })

  unfoldable pub rb_initialize :
      {Value Hash : Type 0}
      → Ruby Value Hash F
      → RubyS3Client F
      → Hash
      → Outcome (M (RubyS3Client F))
  rb_initialize ruby rb_self hash =
      and_then (client_options ruby hash) (λ options. value (initialize_with rb_self options))

  -- The provider and the signing configuration of one request.
  unfoldable pub signing_config_for :
      List ℕ → List ℕ × List ℕ × Option (List ℕ) → M (CredentialsProvider × SigningConfig)
  signing_config_for region (key, secret, token) = do
    provider ← new_static a key secret token
    owning credentials_provider (do signing ← new_s3 a region provider; pure (provider, signing))

  -- The provider is dropped when the request has been answered.
  unfoldable pub signed :
      List ℕ → List ℕ × List ℕ × Option (List ℕ) → (SigningConfig → M S3Result) → M ResponseHash
  signed region credentials request = do
    made ← signing_config_for region credentials
    scoped credentials_provider (do result ← request (made.1); pure (build_hash result))

  module _ (crt : RequestAnswers) where
    unfoldable pub get_call :
        GetParams → S3Client F → List ℕ × List ℕ × Option (List ℕ) → M ResponseHash
    get_call p client credentials =
        signed (client.region) credentials
          (λ signing. get_object crt (get_request p (client.region) signing))

    unfoldable pub put_call :
        PutParams → S3Client F → List ℕ × List ℕ × Option (List ℕ) → M ResponseHash
    put_call p client credentials =
        signed (client.region) credentials
          (λ signing. put_object crt (put_request p (client.region) signing))

    module _ {Value Hash : Type 0} (ruby : Ruby Value Hash F) (rb_self : RubyS3Client F) where
      unfoldable pub rb_get_object : Hash → Outcome (M ResponseHash)
      rb_get_object params = and_then (get_params ruby params) (λ p.
          with_client rb_self (λ client.
            and_then (request_credentials ruby params) (λ c. value (get_call p client c))))

      unfoldable pub rb_put_object : Hash → Outcome (M ResponseHash)
      rb_put_object params = and_then (put_params ruby params) (λ p.
          with_client rb_self (λ client.
            and_then (request_credentials ruby params) (λ c. value (put_call p client c))))
