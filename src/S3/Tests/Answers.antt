-- ===== src/S3/Tests/Answers.antt =====
-- Sample answers of the CRT and of Ruby, and sample requests.
use aws_crt.Prelude.{List, Option, [], codes, false, none, some, true, ℕ, ◌∷◌}
use aws_crt.Prelude.Int.{pos}
use aws_crt.Http.State.{Header}
use aws_crt.S3.Client.{
  ClientAnswers, CredentialsProvider, S3Client, S3ClientOptions, SigningConfig, client_config,
}
use aws_crt.S3.Message.{MessageAnswers}
use aws_crt.S3.Transfer.{
  ChecksumNames, Event, MetaRequestResult, body_came, headers_came, progressed,
}
use aws_crt.S3.Options.{PutObjectOptions, RequestAnswers}
use aws_crt.S3.Ruby.{Ruby, value}
use aws_crt.S3.Ruby.Params.{GetParams, PutParams}
use aws_crt.S3.Ruby.Methods.{put_request}
use aws_crt.S3.Ruby.Methods.Life.{Method, get, initialize, put}
use aws_crt.Tls.{TlsContext}
use aws_crt.Connection.Tests.{tls_answers}

abbrev pub client_answers : ClientAnswers ℕ
client_answers = record {
  provider_made = λ p. true;
  signing_valid = λ s. true;
  tls = tls_answers;
  client_made = λ c. true;
  last_error = pos 5;
}

abbrev pub one_client : S3ClientOptions ℕ
one_client = record {
  region = codes "r";
  access_key_id = codes "k";
  secret_access_key = codes "s";
  session_token = none;
  throughput_target_gbps = 10;
  part_size = 0;
  multipart_upload_threshold = 0;
  memory_limit_in_bytes = 0;
  max_active_connections_override = 0;
}

abbrev pub names : ChecksumNames
names = record { algorithm_name = λ a. codes "CRC32"; is_utf8 = λ s. true }

abbrev pub two_headers : List Header
two_headers = (codes "a", codes "1") ∷ (codes "a", codes "2") ∷ []

abbrev pub events : List Event
events =
    headers_came (some (some (codes "a", codes "1") ∷ none ∷ some (codes "a", codes "2") ∷ []))
      (pos 200)
    ∷ body_came (1 ∷ 2 ∷ [])
    ∷ progressed 2
    ∷ body_came (3 ∷ [])
    ∷ []

abbrev pub finish : ℕ → ℕ → MetaRequestResult
finish code status = record {
  error_response_headers = none;
  error_response_body = none;
  response_status = pos status;
  did_validate = true;
  validation_algorithm = pos 2;
  error_code = pos code;
}

abbrev pub message_answers : MessageAnswers
message_answers = record {
  message_made = true;
  set_request_method = λ m. true;
  set_request_path = λ p. true;
  add_header = λ x. true;
  last_error = pos 5;
}

abbrev pub request_answers : RequestAnswers
request_answers = record {
  message_calls = message_answers;
  stream_made = λ b. true;
  make_meta_request = λ o. some (record { events = events; result = finish 0 200 });
  names = names;
  aws_error_name = λ c. none;
  aws_error_str = λ c. none;
  last_error = pos 5;
}

abbrev pub some_provider : CredentialsProvider
some_provider = record {
  access_key_id = [];
  secret_access_key = [];
  session_token = [];
  account_id = [];
}

abbrev pub some_signing : SigningConfig
some_signing = record { region = []; credentials_provider = some_provider }

abbrev pub get_hash : GetParams
get_hash = record {
  bucket = codes "b";
  key = codes "k";
  recv_filepath = none;
  validate_checksum = true;
}

abbrev pub put_hash : PutParams
put_hash = record {
  bucket = codes "b";
  key = codes "k";
  send_filepath = none;
  body = some (1 ∷ 2 ∷ []);
  content_length = some 2;
  content_type = none;
  checksum_algorithm = some 4;
}

abbrev pub put_options_of : SigningConfig → PutObjectOptions
put_options_of signing = put_request put_hash (codes "r") signing

abbrev pub credentials : List ℕ × List ℕ × Option (List ℕ)
credentials = (codes "k", codes "s", none)

-- The client that new_client gives with these answers.
abbrev pub the_client : S3Client ℕ
the_client =
    let signing : SigningConfig = record {
      region = codes "r";
      credentials_provider = some_provider;
    } in
    let ctx : TlsContext = record { verify_peer = true; ca_file = none; alpn = none } in
    record {
      client = client_config client_answers one_client signing ctx;
      region = codes "r";
      owned_credentials_provider = some_provider;
      signing_config = signing;
      owned_tls_ctx = ctx;
    }

-- A Ruby in which every key of every hash has one value, a string.
abbrev pub ruby : Ruby (List ℕ) (List ℕ) ℕ
ruby = record {
  lookup = λ hash key. value (some hash);
  is_nil = λ v. false;
  to_text = λ v. value v;
  to_unsigned = λ bound v. value 1;
  to_float = λ v. value 1;
  ten = 10;
  to_rstring = λ v. some v;
  as_str = λ bytes. value bytes;
  respond_to_path = λ v. false;
  path = λ v. value v;
  read = λ v. value v;
}

-- A request before initialize, and a second initialize.
abbrev pub life : List (Method (List ℕ) ℕ)
life =
    get client_answers request_answers (codes "CRC32")
    ∷ initialize client_answers (codes "CRC32")
    ∷ put client_answers request_answers (codes "CRC32")
    ∷ initialize client_answers (codes "CRC32")
    ∷ []
