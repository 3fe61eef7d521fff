-- ===== src/S3/Ruby/Methods/Sent.antt =====
-- From the hashes of a method of ext/aws_crt/src/s3_ruby.rs to the request that the CRT makes, and back.
use aws_crt.Prelude.{Bool, List, Option, [], false, refl, true, ℕ, ◌&&◌, ◌≡◌}
use aws_crt.Crt.Resource.{Call, credentials_provider}
use aws_crt.Crt.Action.{M}
use aws_crt.Crt.Gives.{
  Gives, Gives-bind, Gives-check, Gives-create, Gives-owning, Gives-pure, Gives-scoped, guarded,
  result_of,
}
use aws_crt.S3.Client.{
  ClientAnswers, CredentialsProvider, S3Client, SigningConfig, new_s3, new_static, static_options,
}
use aws_crt.S3.Transfer.{S3Result}
use aws_crt.S3.Options.{RequestAnswers, fits_c_string}
use aws_crt.S3.Request.Answered.{get_answer, get_object-Gives, put_answer, put_object-Gives}
use aws_crt.S3.Ruby.Reply.{build_hash}
use aws_crt.S3.Ruby.Params.{GetParams, PutParams}
use aws_crt.S3.Ruby.Methods.{
  get_call, get_request, put_call, put_request, signed, signing_config_for,
}

-- The provider that the CRT is asked for, and the signing configuration over it.
abbrev pub provider_of : List ℕ × List ℕ × Option (List ℕ) → CredentialsProvider
provider_of (key, secret, token) = static_options key secret token

abbrev pub signing_of : List ℕ → List ℕ × List ℕ × Option (List ℕ) → SigningConfig
signing_of region credentials = record {
  region = region;
  credentials_provider = provider_of credentials;
}

both : (b c : Bool) → (b && true) && ((c && true) && true) && true ≡ b && c
both true true = refl
both true false = refl
both false c = refl

module _ {F : Type 0} (a : ClientAnswers F) where
  -- The CRT makes the provider and finds the signing configuration valid.
  abbrev pub signs : List ℕ → List ℕ × List ℕ × Option (List ℕ) → Bool
  signs region credentials =
      a.provider_made (provider_of credentials) && a.signing_valid (signing_of region credentials)

  signed-Gives :
      (region : List ℕ) (credentials : List ℕ × List ℕ × Option (List ℕ))
      (request : SigningConfig → M S3Result) (result : S3Result)
      → Gives (request (signing_of region credentials)) true result (a.last_error)
      → Gives
          (signed a region credentials request)
          (signs region credentials)
          (build_hash result)
          (a.last_error)
  unfolding signed signing_config_for new_static new_s3
  signed-Gives region (key, secret, token) request result k =
      rw
        (← both (a.provider_made (provider_of (key, secret, token)))
          (a.signing_valid (signing_of region (key, secret, token))))
        (Gives-bind _
          (Gives-bind _ (Gives-bind _ (Gives-create credentials_provider [] _) (Gives-pure _)) (
            Gives-owning credentials_provider
              (Gives-bind _ (Gives-bind _ (Gives-check _) (Gives-pure _)) (Gives-pure _))))
          (Gives-scoped credentials_provider (Gives-bind _ k (Gives-pure _))))

  module _ (crt : RequestAnswers) (client : S3Client F)
      (credentials : List ℕ × List ℕ × Option (List ℕ)) where
    abbrev signing : SigningConfig
    signing = signing_of (client.region) credentials

    -- A call of get_object that reads its hashes raises the CRT's error when no provider or no valid
    -- signing configuration can be made of the credentials, and otherwise returns the hash of the answer to
    -- the request for the bucket, the key and the path of the hash; the path has no zero byte.
    pub get_call-answer :
        (p : GetParams) (log : List Call)
        → fits_c_string (p.recv_filepath) ≡ true
        → result_of (get_call a crt p client credentials log)
          ≡ guarded
              (signs (client.region) credentials)
              (build_hash (get_answer crt (get_request p (client.region) signing)))
              (a.last_error)
    unfolding get_call
    get_call-answer p log fits =
        (signed-Gives (client.region) credentials _ _
            (get_object-Gives crt (get_request p (client.region) signing) fits)).ends
          log

    -- A call of put_object that reads its hashes raises the CRT's error when no provider or no valid
    -- signing configuration can be made of the credentials, and otherwise returns the hash of the answer:
    -- what the CRT's report says of the request with the message and the body when the CRT accepts them,
    -- and the request's own error when it does not; the path has no zero byte.
    pub put_call-answer :
        (p : PutParams) (log : List Call)
        → fits_c_string (p.send_filepath) ≡ true
        → result_of (put_call a crt p client credentials log)
          ≡ guarded
              (signs (client.region) credentials)
              (build_hash (put_answer crt (put_request p (client.region) signing)))
              (a.last_error)
    unfolding put_call
    put_call-answer p log fits =
        (signed-Gives (client.region) credentials _ _
            (put_object-Gives crt (put_request p (client.region) signing) fits)).ends
          log
