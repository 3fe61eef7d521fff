-- ===== src/S3/Client.antt =====
-- ext/aws_crt/src/credentials.rs, ext/aws_crt/src/signing.rs and ext/aws_crt/src/s3_client.rs: the S3
-- client and what it owns. The runtime of the process has been obtained.
pub mod Released
use aws_crt.Prelude.{Bool, List, Option, [], false, none, some, true, ℕ, ◌∷◌}
use aws_crt.Prelude.Int.{ℤ}
use aws_crt.Crt.Resource.{
  client_bootstrap, credentials_provider, s3_client, tls_connection_options, tls_ctx,
}
use aws_crt.Crt.Action.{M, afterwards, check, create, destroy, owning, pure, ◌>>=◌, ◌>>◌}
use aws_crt.Tls.{TlsAnswers, TlsContext, default_tls_options, drop_tls_context, new_tls_context}

-- What the CRT copies. An empty cursor is the empty text.
pub record CredentialsProvider : Type 0 where
  pub access_key_id : List ℕ
  pub secret_access_key : List ℕ
  pub session_token : List ℕ
  pub account_id : List ℕ

pub record SigningConfig : Type 0 where
  pub region : List ℕ
  pub credentials_provider : CredentialsProvider

-- `throughput_target_gbps` is a float, of any type.
pub record S3ClientOptions (F : Type 0) : Type 0 where
  pub region : List ℕ
  pub access_key_id : List ℕ
  pub secret_access_key : List ℕ
  pub session_token : Option (List ℕ)
  pub throughput_target_gbps : F
  pub part_size : ℕ
  pub multipart_upload_threshold : ℕ
  pub memory_limit_in_bytes : ℕ
  pub max_active_connections_override : ℕ

-- The structure that the CRT makes the client of, without the fields that are null.
pub record AwsS3ClientConfig (F : Type 0) : Type 0 where
  pub max_active_connections_override : ℕ
  pub region : List ℕ
  pub tls_mode : ℕ
  pub tls_connection_options : TlsContext
  pub signing_config : SigningConfig
  pub part_size : ℕ
  pub max_part_size : ℕ
  pub multipart_upload_threshold : ℕ
  pub throughput_target_gbps : F
  pub memory_limit_in_bytes : ℕ
  pub compute_content_md5 : ℕ
  pub connect_timeout_ms : ℕ
  pub enable_read_backpressure : Bool
  pub initial_read_window : ℕ
  pub enable_s3express : Bool

pub record S3Client (F : Type 0) : Type 0 where
  pub client : AwsS3ClientConfig F
  pub region : List ℕ
  pub owned_credentials_provider : CredentialsProvider
  pub signing_config : SigningConfig
  pub owned_tls_ctx : TlsContext

-- The CRT's answers.
pub record ClientAnswers (F : Type 0) : Type 0 where
  pub provider_made : CredentialsProvider → Bool
  pub signing_valid : SigningConfig → Bool
  pub tls : TlsAnswers
  pub client_made : AwsS3ClientConfig F → Bool
  pub last_error : ℤ

abbrev or_empty : Option (List ℕ) → List ℕ
or_empty none = []
or_empty (some s) = s

abbrev pub static_options : List ℕ → List ℕ → Option (List ℕ) → CredentialsProvider
static_options key secret token = record {
  access_key_id = key;
  secret_access_key = secret;
  session_token = or_empty token;
  account_id = [];
}

module _ {F : Type 0} (a : ClientAnswers F) where
  unfoldable pub new_static : List ℕ → List ℕ → Option (List ℕ) → M CredentialsProvider
  new_static key secret token =
      let options : CredentialsProvider = static_options key secret token in
      (do create credentials_provider [] (a.provider_made options) (a.last_error); pure options)

  -- The structure is the Rust program's own memory. It points to the provider.
  unfoldable pub new_s3 : List ℕ → CredentialsProvider → M SigningConfig
  new_s3 region provider =
      let config : SigningConfig = record { region = region; credentials_provider = provider } in
      (do check (a.signing_valid config) (a.last_error); pure config)

  unfoldable pub client_config :
      S3ClientOptions F → SigningConfig → TlsContext → AwsS3ClientConfig F
  client_config options signing ctx = record {
    max_active_connections_override = options.max_active_connections_override;
    region = options.region;
    tls_mode = 0;
    tls_connection_options = ctx;
    signing_config = signing;
    part_size = options.part_size;
    max_part_size = 0;
    multipart_upload_threshold = options.multipart_upload_threshold;
    throughput_target_gbps = options.throughput_target_gbps;
    memory_limit_in_bytes = options.memory_limit_in_bytes;
    compute_content_md5 = 0;
    connect_timeout_ms = 0;
    enable_read_backpressure = false;
    initial_read_window = 0;
    enable_s3express = false;
  }

  unfoldable pub new_client_with :
      S3ClientOptions F → CredentialsProvider → SigningConfig → TlsContext → M (S3Client F)
  new_client_with options provider signing ctx =
      let config = client_config options signing ctx in
      (do
        create s3_client (client_bootstrap ∷ tls_connection_options ∷ credentials_provider ∷ [])
            (a.client_made config) (a.last_error)
        pure (record {
          client = config;
          region = options.region;
          owned_credentials_provider = provider;
          signing_config = signing;
          owned_tls_ctx = ctx;
        }))

  unfoldable pub new_client : S3ClientOptions F → M (S3Client F)
  new_client options = do
    provider ←
        new_static (options.access_key_id) (options.secret_access_key) (options.session_token)
    owning credentials_provider (do
      signing ← new_s3 (options.region) provider
      ctx ← new_tls_context (a.tls) default_tls_options
      owning tls_ctx (do
        create tls_connection_options (tls_ctx ∷ []) true (a.last_error)
        afterwards tls_connection_options (new_client_with options provider signing ctx)))

-- Drop of the client, then of its fields in their order.
unfoldable pub drop_client : M (Unit {0})
drop_client = do destroy s3_client; destroy credentials_provider; drop_tls_context
