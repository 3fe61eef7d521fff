-- ===== src/Tls/Released.antt =====
-- What TlsContext::new of ext/aws_crt/src/tls.rs leaves held.
use aws_crt.Prelude.{Bool, List, Option, [], none, refl, some, true, ℕ, ◌∷◌}
use aws_crt.Prelude.Int.{ℤ}
use aws_crt.Crt.Resource.{Resource, tls_ctx, tls_ctx_options}
use aws_crt.Crt.Runs.{Runs, Runs-afterwards, Runs-bind, Runs-check, Runs-create, Runs-pure}
use aws_crt.Tls.{TlsAnswers, TlsOptions, configure_and_create, new_tls_context, set_text}

set_text-Runs :
    {h : List Resource} (set : List ℕ → Bool) (last_error : ℤ) (s : Option (List ℕ))
    → Runs h (set_text set last_error s) h h
unfolding set_text
set_text-Runs set last_error none = Runs-pure tt
set_text-Runs set last_error (some s) = Runs-bind (Runs-check _ _) (λ _. Runs-check _ _)

-- TlsContext::new holds the context and nothing more when it returns one, and nothing at all when it
-- fails, at whichever step: the options structure is cleaned up on every path.
pub new_tls_context-Runs :
    {h : List Resource} (a : TlsAnswers) (options : TlsOptions)
    → Runs h (new_tls_context a options) (tls_ctx ∷ h) h
unfolding new_tls_context configure_and_create
new_tls_context-Runs a options = Runs-bind (Runs-create tls_ctx_options [] true _ refl) (λ _.
    Runs-afterwards tls_ctx_options refl refl (
      Runs-bind (set_text-Runs _ _ _) (λ _.
        Runs-bind (set_text-Runs _ _ _)
          (λ _. Runs-bind (Runs-create tls_ctx _ _ _ refl) (λ _. Runs-pure _)))))
