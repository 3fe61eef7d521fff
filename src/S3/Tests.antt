-- ===== src/S3/Tests.antt =====
-- Clients and requests of ext/aws_crt/src/s3_client.rs, s3_request.rs and s3_ruby.rs.
pub mod Answers
use aws_crt.Http.Callbacks.{reservation}
use aws_crt.Prelude.{
  List, [], arith, codes, false, none, refl, same_bytes, some, starts_with, true, ℕ, ◌∷◌, ◌≡◌, ◌⊎◌,
}
use aws_crt.Prelude.Int.{pos}
use aws_crt.Crt.Resource.{acquire, client_bootstrap, credentials_provider, s3_client}
use aws_crt.Crt.Action.{has_nul, ◌>>=◌}
use aws_crt.Crt.Runs.{Runs}
use aws_crt.Crt.Gives.{guarded, result_of}
use aws_crt.S3.Client.{drop_client, new_client}
use aws_crt.S3.Client.Released.{new_client_then_drop}
use aws_crt.S3.Message.{request_path}
use aws_crt.S3.Message.Built.{request_path_lem}
use aws_crt.S3.Transfer.{
  MetaRequestResult, at_least_400, body_came, extract_result, finish_callback, new_shared_state, ok,
  on_event, validated_name, wait_for_completion,
}
use aws_crt.S3.Transfer.Told.{extract_result-told, told}
use aws_crt.S3.Options.{content_length_header, parse_checksum_algorithm}
use aws_crt.S3.Request.{put_object}
use aws_crt.S3.Request.Released.{put_object-Runs}
use aws_crt.S3.Request.Answered.{get_answer, put_answer}
use aws_crt.S3.Transfer.Waits.{Reaches-told, begin, called, ended, woke}
use aws_crt.S3.Ruby.{
  hash_get_optional_u64, hash_get_string, hash_get_string_required, hash_get_value, or_default,
  value,
}
use aws_crt.S3.Ruby.Reply.{build_hash, fetch, last_value, store_headers}
use aws_crt.S3.Ruby.Fetched.{fetch-last_value}
use aws_crt.S3.Ruby.Params.{
  body_source, checksum_algorithm_of, get_params, put_params, recv_filepath_of,
}
use aws_crt.S3.Ruby.Methods.{get_call, get_request, put_call, put_request}
use aws_crt.S3.Ruby.Methods.Life.{AllFit, Sound, call_methods, call_methods-Sound}
use aws_crt.S3.Ruby.Methods.Sent.{get_call-answer, put_call-answer, signing_of, signs}
use aws_crt.S3.Ruby.Sendable.{Given, Handed, put_params-Sendable}
use aws_crt.S3.Tests.Answers.{
  client_answers, credentials, events, finish, get_hash, life, names, one_client, put_hash,
  put_options_of, request_answers, ruby, some_signing, the_client, two_headers,
}

new_client_then_drop_example :
    Runs
      (client_bootstrap ∷ [])
      (new_client client_answers one_client >>= λ c. drop_client)
      (client_bootstrap ∷ [])
      (client_bootstrap ∷ [])
new_client_then_drop_example = new_client_then_drop client_answers one_client refl

extract_result-told_example :
    extract_result true (wait_for_completion names true events (finish 0 200) new_shared_state)
    ≡ told names true events (finish 0 200)
extract_result-told_example = extract_result-told names true events (finish 0 200)

-- Two parts of a body, and the two headers that could be read.
told_once :
    told names true events (finish 0 200)
    ≡ ok (record {
      status_code = pos 200;
      headers = (codes "a", codes "1") ∷ (codes "a", codes "2") ∷ [];
      body = some (1 ∷ 2 ∷ 3 ∷ []);
      checksum_validated = some (codes "CRC32");
    })
unfolding validated_name at_least_400 codes
told_once = refl

put_object-Runs_example :
    Runs
      (s3_client ∷ credentials_provider ∷ [])
      (put_object request_answers (put_options_of some_signing))
      (s3_client ∷ credentials_provider ∷ [])
      []
put_object-Runs_example = put_object-Runs request_answers (put_options_of some_signing) refl refl

same_path : request_path (codes "/k") ≡ request_path (codes "k")
unfolding request_path codes
same_path = refl

fetch-last_value_example :
    fetch (codes "a") (store_headers [] two_headers) ≡ last_value (codes "a") two_headers
fetch-last_value_example = fetch-last_value (codes "a") two_headers

life_fits : AllFit ruby life
unfolding get_params put_params hash_get_string_required hash_get_string hash_get_value
    hash_get_optional_u64 or_default recv_filepath_of checksum_algorithm_of parse_checksum_algorithm
    body_source same_bytes codes has_nul
life_fits = (refl, (tt, (refl, (tt, tt))))

call_methods-Sound_example :
    Sound []
      (client_bootstrap ∷ [])
      (call_methods ruby life (record { inner = none }) (acquire client_bootstrap [] ∷ []))
call_methods-Sound_example =
    call_methods-Sound ruby [] (client_bootstrap ∷ []) life (record { inner = none })
      (acquire client_bootstrap [] ∷ []) refl life_fits refl

get_call-answer_example :
    result_of (get_call client_answers request_answers get_hash the_client credentials [])
    ≡ guarded
        (signs client_answers (the_client.region) credentials)
        (build_hash (
          get_answer request_answers (
            get_request get_hash (the_client.region) (signing_of (the_client.region) credentials))))
        (pos 5)
get_call-answer_example =
    get_call-answer client_answers request_answers the_client credentials get_hash [] refl

put_call-answer_example :
    result_of (put_call client_answers request_answers put_hash the_client credentials [])
    ≡ guarded
        (signs client_answers (the_client.region) credentials)
        (build_hash (
          put_answer request_answers (
            put_request put_hash (the_client.region) (signing_of (the_client.region) credentials))))
        (pos 5)
put_call-answer_example =
    put_call-answer client_answers request_answers the_client credentials put_hash [] refl

put_params-Sendable_example : Given (Handed ruby (codes "CRC32")) (put_params ruby (codes "CRC32"))
put_params-Sendable_example = put_params-Sendable ruby (codes "CRC32")

-- The hash that was read has its three bytes as the body and the number of CRC32.
read_hash :
    put_params ruby (codes "CRC32")
    ≡ value (record {
      bucket = codes "CRC32";
      key = codes "CRC32";
      send_filepath = none;
      body = some (codes "CRC32");
      content_length = some 1;
      content_type = some (codes "CRC32");
      checksum_algorithm = some 2;
    })
unfolding put_params hash_get_string_required hash_get_string hash_get_value hash_get_optional_u64
    or_default checksum_algorithm_of parse_checksum_algorithm body_source same_bytes codes
read_hash = refl

-- The thread wakes up for nothing, a part of the body comes, and the thread wakes up behind the end.
Reaches-told_example :
    (finish_callback names
        (finish 0 200)
        (on_event true (body_came (1 ∷ [])) new_shared_state)).complete
      ≡ true
    × (true ≡ true
        → (r : MetaRequestResult) × (some (finish 0 200) ≡ some r)
          × (extract_result true (
                finish_callback names
                  (finish 0 200)
                  (on_event true (body_came (1 ∷ [])) new_shared_state))
              ≡ told names true (body_came (1 ∷ []) ∷ []) r))
unfolding new_shared_state finish_callback
Reaches-told_example =
    Reaches-told (woke (ended (finish 0 200) (called (body_came (1 ∷ [])) (woke begin))))
