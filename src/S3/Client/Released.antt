-- ===== src/S3/Client/Released.antt =====
-- What an S3 client of ext/aws_crt/src/s3_client.rs holds.
use aws_crt.Prelude.{List, [], refl, true, ◌∷◌, ◌≡◌}
use aws_crt.Crt.Resource.{
  Resource, client_bootstrap, credentials_provider, elem, s3_client, tls_connection_options,
  tls_ctx,
}
use aws_crt.Crt.Action.{◌>>=◌}
use aws_crt.Crt.Runs.{
  Runs, Runs-afterwards, Runs-bind, Runs-check, Runs-create, Runs-destroy, Runs-made, Runs-owning,
  Runs-pure,
}
use aws_crt.Tls.{default_tls_options, drop_tls_context}
use aws_crt.Tls.Released.{new_tls_context-Runs}
use aws_crt.S3.Client.{
  ClientAnswers, S3ClientOptions, drop_client, new_client, new_client_with, new_s3, new_static,
}

pub drop_client-Runs :
    {h bad : List Resource}
    → Runs (s3_client ∷ tls_ctx ∷ credentials_provider ∷ h) drop_client h bad
unfolding drop_client drop_tls_context
drop_client-Runs =
    Runs-bind (Runs-destroy s3_client refl)
      (λ _. Runs-bind (Runs-destroy credentials_provider refl) (λ _. Runs-destroy tls_ctx refl))

module _ {F : Type 0} {h : List Resource} (a : ClientAnswers F) where
  -- S3Client::new holds the client, its TLS context and its credentials provider once it has returned
  -- one, and nothing when it fails at any step; the signing configuration points to a provider that is
  -- held, and the client is made of connection options that are held.
  pub new_client-Runs :
      (options : S3ClientOptions F)
      → elem client_bootstrap h ≡ true
      → Runs h (new_client a options) (s3_client ∷ tls_ctx ∷ credentials_provider ∷ h) h
  unfolding new_client new_static new_s3 new_client_with
  new_client-Runs options started =
      Runs-bind (Runs-bind (Runs-create credentials_provider [] _ _ refl) (λ _. Runs-pure _))
        (λ provider. Runs-owning credentials_provider refl (
          Runs-bind (Runs-bind (Runs-check _ _) (λ _. Runs-pure _)) (λ signing.
            Runs-bind (new_tls_context-Runs (a.tls) default_tls_options) (λ ctx.
              Runs-owning tls_ctx refl (
                Runs-bind (Runs-made tls_connection_options _ _ refl) (λ _.
                  Runs-afterwards tls_connection_options refl refl (
                    Runs-bind (Runs-create s3_client _ _ _ (rw started refl))
                      (λ _. Runs-pure _))))))))

  -- Where the client bootstrap is held, an S3 client that is made and dropped leaves nothing held, whether
  -- or not it could be made.
  pub new_client_then_drop :
      (options : S3ClientOptions F)
      → elem client_bootstrap h ≡ true
      → Runs h (new_client a options >>= λ c. drop_client) h h
  new_client_then_drop options started =
      Runs-bind (new_client-Runs options started) (λ c. drop_client-Runs)
