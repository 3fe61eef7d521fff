-- ===== src/S3/Ruby/Params.antt =====
-- What the methods of AwsCrt::S3::Client in ext/aws_crt/src/s3_ruby.rs read of their hashes before they
-- call the CRT.
use aws_crt.Prelude.{Bool, List, Option, codes, false, if◌then◌else◌, none, same_bytes, some, ℕ}
use aws_crt.S3.Client.{S3ClientOptions}
use aws_crt.S3.Options.{parse_checksum_algorithm}
use aws_crt.S3.Ruby.{
  Outcome, Ruby, error, hash_get_f64, hash_get_optional_u64, hash_get_string,
  hash_get_string_required, hash_get_u32, hash_get_u64, hash_get_value, invalid_checksum_algorithm,
  value, ◌>>=◌,
}

-- What get_object reads of its hash.
pub record GetParams : Type 0 where
  pub bucket : List ℕ
  pub key : List ℕ
  pub recv_filepath : Option (List ℕ)
  pub validate_checksum : Bool

-- What put_object reads of its hash.
pub record PutParams : Type 0 where
  pub bucket : List ℕ
  pub key : List ℕ
  pub send_filepath : Option (List ℕ)
  pub body : Option (List ℕ)
  pub content_length : Option ℕ
  pub content_type : Option (List ℕ)
  pub checksum_algorithm : Option ℕ

module _ {Value Hash F : Type 0} (ruby : Ruby Value Hash F) where
  unfoldable pub client_options : Hash → Outcome (S3ClientOptions F)
  client_options options = do
    region ← hash_get_string_required ruby options (codes "region")
    access_key_id ← hash_get_string_required ruby options (codes "access_key_id")
    secret_access_key ← hash_get_string_required ruby options (codes "secret_access_key")
    session_token ← hash_get_string ruby options (codes "session_token")
    throughput_target_gbps ← hash_get_f64 ruby options (codes "throughput_target_gbps") (ruby.ten)
    part_size ← hash_get_u64 ruby options (codes "part_size") 0
    multipart_upload_threshold ← hash_get_u64 ruby options (codes "multipart_upload_threshold") 0
    memory_limit_in_bytes ← hash_get_u64 ruby options (codes "memory_limit_in_bytes") 0
    max_active_connections_override ←
        hash_get_u32 ruby options (codes "max_active_connections_override") 0
    value (record {
      region = region;
      access_key_id = access_key_id;
      secret_access_key = secret_access_key;
      session_token = session_token;
      throughput_target_gbps = throughput_target_gbps;
      part_size = part_size;
      multipart_upload_threshold = multipart_upload_threshold;
      memory_limit_in_bytes = memory_limit_in_bytes;
      max_active_connections_override = max_active_connections_override;
    })

  -- The credentials of one request.
  unfoldable pub request_credentials : Hash → Outcome (List ℕ × List ℕ × Option (List ℕ))
  request_credentials params = do
    access_key_id ← hash_get_string_required ruby params (codes "_access_key_id")
    secret_access_key ← hash_get_string_required ruby params (codes "_secret_access_key")
    session_token ← hash_get_string ruby params (codes "_session_token")
    value (access_key_id, secret_access_key, session_token)

  abbrev file_path : Option (List ℕ) → Outcome (Option (List ℕ))
  file_path none = value none
  file_path (some bytes) = ruby.as_str bytes >>= λ s. value (some s)

  -- A string names a file; any other object does not.
  unfoldable pub recv_filepath_of : Option Value → Outcome (Option (List ℕ))
  recv_filepath_of none = value none
  recv_filepath_of (some target) = file_path (ruby.to_rstring target)

  abbrev is_enabled : Option (List ℕ) → Bool
  is_enabled none = false
  is_enabled (some mode) = same_bytes mode (codes "ENABLED")

  unfoldable pub get_params : Hash → Outcome GetParams
  get_params params = do
    bucket ← hash_get_string_required ruby params (codes "bucket")
    key ← hash_get_string_required ruby params (codes "key")
    response_target ← hash_get_value ruby params (codes "response_target")
    checksum_mode ← hash_get_string ruby params (codes "checksum_mode")
    on_progress ← hash_get_value ruby params (codes "on_progress")
    recv_filepath ← recv_filepath_of response_target
    value (record {
      bucket = bucket;
      key = key;
      recv_filepath = recv_filepath;
      validate_checksum = is_enabled checksum_mode;
    })

  abbrev pub algorithm_or_error : List ℕ → Option ℕ → Outcome (Option ℕ)
  algorithm_or_error name none = error (invalid_checksum_algorithm name)
  algorithm_or_error name (some algo) = value (some algo)

  unfoldable pub checksum_algorithm_of : Option (List ℕ) → Outcome (Option ℕ)
  checksum_algorithm_of none = value none
  checksum_algorithm_of (some name) = algorithm_or_error name (parse_checksum_algorithm name)

  -- The path of a file to send, and the bytes of a body: a string is a body, a File is sent by its
  -- path, and any other object is read.
  abbrev pub source_of : Value → Option (List ℕ) → Outcome (Option (List ℕ) × Option (List ℕ))
  source_of v (some bytes) = value (none, some bytes)
  source_of v none =
      if ruby.respond_to_path v
      then ruby.path v >>= (λ path. value (some path, none))
      else ruby.read v >>= (λ bytes. value (none, some bytes))

  unfoldable pub body_source : Option Value → Outcome (Option (List ℕ) × Option (List ℕ))
  body_source none = value (none, none)
  body_source (some v) = source_of v (ruby.to_rstring v)

  unfoldable pub put_params : Hash → Outcome PutParams
  put_params params = do
    bucket ← hash_get_string_required ruby params (codes "bucket")
    key ← hash_get_string_required ruby params (codes "key")
    body ← hash_get_value ruby params (codes "body")
    content_length ← hash_get_optional_u64 ruby params (codes "content_length")
    content_type ← hash_get_string ruby params (codes "content_type")
    checksum_algorithm_name ← hash_get_string ruby params (codes "checksum_algorithm")
    on_progress ← hash_get_value ruby params (codes "on_progress")
    checksum_algorithm ← checksum_algorithm_of checksum_algorithm_name
    source ← body_source body
    value (record {
      bucket = bucket;
      key = key;
      send_filepath = source.0;
      body = source.1;
      content_length = content_length;
      content_type = content_type;
      checksum_algorithm = checksum_algorithm;
    })
