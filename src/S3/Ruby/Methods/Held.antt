-- ===== src/S3/Ruby/Methods/Held.antt =====
-- What an AwsCrt::S3::Client of ext/aws_crt/src/s3_ruby.rs holds over its life.
use aws_crt.Prelude.{List, Option, [], none, refl, some, true, ℕ, ◌∷◌, ◌≡◌}
use aws_crt.Crt.Resource.{
  Resource, client_bootstrap, credentials_provider, elem, s3_client, tls_ctx,
}
use aws_crt.Crt.Action.{M}
use aws_crt.Crt.Runs.{Runs, Runs-bind, Runs-check, Runs-create, Runs-owning, Runs-pure, Runs-scoped}
use aws_crt.S3.Client.{ClientAnswers, S3Client, S3ClientOptions, SigningConfig, new_s3, new_static}
use aws_crt.S3.Client.Released.{drop_client-Runs, new_client-Runs}
use aws_crt.S3.Transfer.{S3Result}
use aws_crt.S3.Options.{RequestAnswers, fits_c_string}
use aws_crt.S3.Request.Released.{get_object-Runs, put_object-Runs, ready}
use aws_crt.S3.Ruby.Params.{GetParams, PutParams}
use aws_crt.S3.Ruby.Methods.{
  RubyS3Client, drop_inner, get_call, initialize_with, put_call, signed, signing_config_for,
}

abbrev pub owned : {F : Type 0} → Option (S3Client F) → List Resource → List Resource
owned none h = h
owned (some client) h = s3_client ∷ tls_ctx ∷ credentials_provider ∷ h

ready_with : (h : List Resource) → elem s3_client h ≡ true → ready (credentials_provider ∷ h) ≡ true
ready_with h e = rw e refl

module _ {F : Type 0} (a : ClientAnswers F) {h : List Resource} where
  drop_inner-Runs :
      {bad : List Resource} (old : Option (S3Client F))
      → Runs
          (s3_client ∷ tls_ctx ∷ credentials_provider ∷ owned old h)
          (drop_inner old)
          (s3_client ∷ tls_ctx ∷ credentials_provider ∷ h)
          bad
  drop_inner-Runs none = Runs-pure tt
  drop_inner-Runs (some client) = drop_client-Runs

  -- initialize holds one client, also when it is called again; a failed call keeps what was there.
  pub initialize_with-Runs :
      (rb_self : RubyS3Client F) (options : S3ClientOptions F)
      → elem client_bootstrap (owned (rb_self.inner) h) ≡ true
      → Runs
          (owned (rb_self.inner) h)
          (initialize_with a rb_self options)
          (s3_client ∷ tls_ctx ∷ credentials_provider ∷ h)
          (owned (rb_self.inner) h)
  unfolding initialize_with
  initialize_with-Runs rb_self options started =
      Runs-bind (new_client-Runs a options started)
        (λ client. Runs-bind (drop_inner-Runs (rb_self.inner)) (λ _. Runs-pure _))

  signing_config_for-Runs :
      (region : List ℕ) (credentials : List ℕ × List ℕ × Option (List ℕ))
      → Runs h (signing_config_for a region credentials) (credentials_provider ∷ h) h
  unfolding signing_config_for new_static new_s3
  signing_config_for-Runs region (key, secret, token) =
      Runs-bind (Runs-bind (Runs-create credentials_provider [] _ _ refl) (λ _. Runs-pure _))
        (λ provider.
          Runs-owning credentials_provider refl
            (Runs-bind (Runs-bind (Runs-check _ _) (λ _. Runs-pure _)) (λ signing. Runs-pure _)))

  signed-Runs :
      (region : List ℕ) (credentials : List ℕ × List ℕ × Option (List ℕ))
      (request : SigningConfig → M S3Result)
      → ((signing : SigningConfig)
          → Runs
              (credentials_provider ∷ h)
              (request signing)
              (credentials_provider ∷ h)
              (credentials_provider ∷ h))
      → Runs h (signed a region credentials request) h h
  unfolding signed
  signed-Runs region credentials request k =
      Runs-bind (signing_config_for-Runs region credentials) (λ made.
        Runs-scoped credentials_provider refl refl (Runs-bind (k _) (λ result. Runs-pure _)))

  module _ (crt : RequestAnswers) (client : S3Client F)
      (credentials : List ℕ × List ℕ × Option (List ℕ)) where
    -- A call of get_object with a client that is held gives back its own credentials provider, its
    -- message and its request, on every path that does not panic.
    pub get_call-Runs :
        (p : GetParams)
        → elem s3_client h ≡ true
        → fits_c_string (p.recv_filepath) ≡ true
        → Runs h (get_call a crt p client credentials) h h
    unfolding get_call
    get_call-Runs p e fits =
        signed-Runs (client.region) credentials _
          (λ signing. get_object-Runs crt _ (ready_with h e) fits)

    pub put_call-Runs :
        (p : PutParams)
        → elem s3_client h ≡ true
        → fits_c_string (p.send_filepath) ≡ true
        → Runs h (put_call a crt p client credentials) h h
    unfolding put_call
    put_call-Runs p e fits =
        signed-Runs (client.region) credentials _
          (λ signing. put_object-Runs crt _ (ready_with h e) fits)
