-- ===== src/S3/Options.antt =====
-- The options of a meta request of ext/aws_crt/src/s3_request.rs, and the CRT's answers to one.
use aws_crt.Prelude.{
  Bool, List, Option, [], codes, false, if◌then◌else◌, none, not, same_bytes, some, true, ℕ, ◌++◌,
  ◌||◌, ◌∷◌,
}
use aws_crt.Prelude.Int.{ℤ}
use aws_crt.Crt.Action.{has_nul}
use aws_crt.Http.State.{Header}
use aws_crt.Error.{digits}
use aws_crt.S3.Client.{SigningConfig}
use aws_crt.S3.Message.{HttpMessage, MessageAnswers}
use aws_crt.S3.Transfer.{ChecksumNames, Event, MetaRequestResult, is_empty}

abbrev aws_s3_meta_request_type_get_object : ℕ
aws_s3_meta_request_type_get_object = 1

abbrev aws_s3_meta_request_type_put_object : ℕ
aws_s3_meta_request_type_put_object = 2

abbrev pub aws_sca_none : ℕ
aws_sca_none = 0

abbrev pub aws_sca_crc32c : ℕ
aws_sca_crc32c = 1

abbrev pub aws_sca_crc32 : ℕ
aws_sca_crc32 = 2

abbrev pub aws_sca_sha1 : ℕ
aws_sca_sha1 = 3

abbrev pub aws_sca_sha256 : ℕ
aws_sca_sha256 = 4

abbrev pub aws_scl_none : ℕ
aws_scl_none = 0

abbrev pub aws_scl_trailer : ℕ
aws_scl_trailer = 2

pub record AwsS3ChecksumConfig : Type 0 where
  pub location : ℕ
  pub checksum_algorithm : ℕ
  pub validate_response_checksum : Bool

-- The structure of one meta request, without the pointers that are null in every request. An empty
-- cursor is the empty text; a callback is there or a null pointer.
pub record AwsS3MetaRequestOptions : Type 0 where
  pub meta_request_type : ℕ
  pub operation_name : List ℕ
  pub signing_config : SigningConfig
  pub message : HttpMessage
  pub recv_filepath : List ℕ
  pub recv_file_option : ℕ
  pub recv_file_position : ℕ
  pub recv_file_delete_on_failure : Bool
  pub send_filepath : List ℕ
  pub send_using_async_writes : Bool
  pub checksum_config : Option AwsS3ChecksumConfig
  pub part_size : ℕ
  pub force_dynamic_part_size : Bool
  pub multipart_upload_threshold : ℕ
  pub headers_callback : Bool
  pub body_callback : Bool
  pub finish_callback : Bool
  pub shutdown_callback : Bool
  pub progress_callback : Bool
  pub copy_source_uri : List ℕ
  pub max_active_connections_override : ℕ

-- What the CRT reports of a request that it has taken on.
pub record Report : Type 0 where
  pub events : List Event
  pub result : MetaRequestResult

-- The CRT's answers. `none` for a request is a null pointer.
pub record RequestAnswers : Type 0 where
  pub message_calls : MessageAnswers
  pub stream_made : List ℕ → Bool
  pub make_meta_request : AwsS3MetaRequestOptions → Option Report
  pub names : ChecksumNames
  pub aws_error_name : ℤ → Option (List ℕ)
  pub aws_error_str : ℤ → Option (List ℕ)
  pub last_error : ℤ

unfoldable pub parse_checksum_algorithm : List ℕ → Option ℕ
parse_checksum_algorithm name =
    if same_bytes name (codes "CRC32")
    then some aws_sca_crc32
    else if same_bytes name (codes "CRC32C")
    then some aws_sca_crc32c
    else if same_bytes name (codes "SHA1")
    then some aws_sca_sha1
    else if same_bytes name (codes "SHA256")
    then some aws_sca_sha256
    else none

pub record GetObjectOptions : Type 0 where
  pub signing_config : SigningConfig
  pub bucket : List ℕ
  pub key : List ℕ
  pub region : List ℕ
  pub recv_filepath : Option (List ℕ)
  pub validate_checksum : Bool

pub record PutObjectOptions : Type 0 where
  pub signing_config : SigningConfig
  pub bucket : List ℕ
  pub key : List ℕ
  pub region : List ℕ
  pub send_filepath : Option (List ℕ)
  pub body : Option (List ℕ)
  pub content_length : Option ℕ
  pub content_type : Option (List ℕ)
  pub checksum_algorithm : Option ℕ

abbrev pub fits_c_string : Option (List ℕ) → Bool
fits_c_string none = true
fits_c_string (some path) = not (has_nul path)

abbrev pub cursor_of : Option (List ℕ) → List ℕ
cursor_of none = []
cursor_of (some path) = path

abbrev pub is_some : {A : Type 0} → Option A → Bool
is_some none = false
is_some (some a) = true

-- The headers that put_object adds. Twenty places are enough for a u64.
unfoldable pub content_type_header : Option (List ℕ) → List Header
content_type_header none = []
content_type_header (some text) = (codes "Content-Type", text) ∷ []

unfoldable pub content_length_header : Option ℕ → List Header
content_length_header none = []
content_length_header (some n) = (codes "Content-Length", digits 20 n []) ∷ []

unfoldable pub extra_headers : PutObjectOptions → List Header
extra_headers options =
    content_type_header (options.content_type) ++ content_length_header (options.content_length)

unfoldable pub get_checksum_config : Bool → Option AwsS3ChecksumConfig
get_checksum_config validate =
    if validate
    then some (record {
      location = aws_scl_none;
      checksum_algorithm = aws_sca_none;
      validate_response_checksum = true;
    })
    else none

unfoldable pub put_checksum_config : Option ℕ → Option AwsS3ChecksumConfig
put_checksum_config none = none
put_checksum_config (some algo) = some (record {
  location = aws_scl_trailer;
  checksum_algorithm = algo;
  validate_response_checksum = false;
})

unfoldable pub get_options : GetObjectOptions → HttpMessage → AwsS3MetaRequestOptions
get_options options request = record {
  meta_request_type = aws_s3_meta_request_type_get_object;
  operation_name = [];
  signing_config = options.signing_config;
  message = request;
  recv_filepath = cursor_of (options.recv_filepath);
  recv_file_option = 0;
  recv_file_position = 0;
  recv_file_delete_on_failure = false;
  send_filepath = [];
  send_using_async_writes = false;
  checksum_config = get_checksum_config (options.validate_checksum);
  part_size = 0;
  force_dynamic_part_size = false;
  multipart_upload_threshold = 0;
  headers_callback = true;
  body_callback = not (is_some (options.recv_filepath));
  finish_callback = true;
  shutdown_callback = false;
  progress_callback = true;
  copy_source_uri = [];
  max_active_connections_override = 0;
}

unfoldable pub put_options : PutObjectOptions → HttpMessage → AwsS3MetaRequestOptions
put_options options request = record {
  meta_request_type = aws_s3_meta_request_type_put_object;
  operation_name = [];
  signing_config = options.signing_config;
  message = request;
  recv_filepath = [];
  recv_file_option = 0;
  recv_file_position = 0;
  recv_file_delete_on_failure = false;
  send_filepath = cursor_of (options.send_filepath);
  send_using_async_writes = false;
  checksum_config = put_checksum_config (options.checksum_algorithm);
  part_size = 0;
  force_dynamic_part_size = false;
  multipart_upload_threshold = 0;
  headers_callback = true;
  body_callback = false;
  finish_callback = true;
  shutdown_callback = false;
  progress_callback = true;
  copy_source_uri = [];
  max_active_connections_override = 0;
}

-- The bytes that an input stream is made of: there is none behind a path, and none for an empty body.
unfoldable pub streamed_body : PutObjectOptions → Option (List ℕ)
streamed_body options =
    if is_some (options.send_filepath) || is_empty (cursor_of (options.body))
    then none
    else options.body
