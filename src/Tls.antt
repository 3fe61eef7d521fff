-- ===== src/Tls.antt =====
-- ext/aws_crt/src/tls.rs: TLS contexts.
pub mod Released
use aws_crt.Prelude.{Bool, List, Option, [], none, not, some, true, ℕ, ◌∷◌}
use aws_crt.Prelude.Int.{pos, ℤ}
use aws_crt.Crt.Resource.{tls_ctx, tls_ctx_options}
use aws_crt.Crt.Action.{M, afterwards, check, create, destroy, has_nul, pure, ◌>>=◌, ◌>>◌}

pub record TlsOptions : Type 0 where
  pub verify_peer : Bool
  pub ca_filepath : Option (List ℕ)
  pub alpn_list : Option (List ℕ)

unfoldable pub default_tls_options : TlsOptions
default_tls_options = record { verify_peer = true; ca_filepath = none; alpn_list = none }

-- The settings that the CRT's context was made with. `ca_path`, a directory, is never set.
pub record TlsContext : Type 0 where
  pub verify_peer : Bool
  pub ca_file : Option (List ℕ)
  pub alpn : Option (List ℕ)

pub record TlsAnswers : Type 0 where
  pub override_default_trust_store : List ℕ → Bool
  pub set_alpn_list : List ℕ → Bool
  pub ctx_made : Bool
  pub last_error : ℤ

-- An optional text for a call of the CRT: one with a zero byte is an error with the code 0.
unfoldable pub set_text : (List ℕ → Bool) → ℤ → Option (List ℕ) → M (Unit {0})
set_text set last_error none = pure tt
set_text set last_error (some s) = do check (not (has_nul s)) (pos 0); check (set s) last_error

unfoldable pub configure_and_create : TlsAnswers → TlsOptions → M TlsContext
configure_and_create a options = do
  set_text (a.override_default_trust_store) (a.last_error) (options.ca_filepath)
  set_text (a.set_alpn_list) (a.last_error) (options.alpn_list)
  create tls_ctx (tls_ctx_options ∷ []) (a.ctx_made) (a.last_error)
  pure (record {
    verify_peer = options.verify_peer;
    ca_file = options.ca_filepath;
    alpn = options.alpn_list;
  })

unfoldable pub new_tls_context : TlsAnswers → TlsOptions → M TlsContext
new_tls_context a options = do
  create tls_ctx_options [] true (a.last_error)
  afterwards tls_ctx_options (configure_and_create a options)

unfoldable pub drop_tls_context : M (Unit {0})
drop_tls_context = destroy tls_ctx
