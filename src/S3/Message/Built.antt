-- ===== src/S3/Message/Built.antt =====
-- What building a message of ext/aws_crt/src/s3_request.rs holds, and the paths it gives.
use aws_crt.Http.State.{Header}
use aws_crt.Prelude.{
  Bool-cases, List, [], codes, inl, inr, refl, starts_with, sym, true, ℕ, ◌∙◌, ◌∷◌, ◌≡◌, ◌⊎◌,
}
use aws_crt.Crt.Resource.{Resource, http_message}
use aws_crt.Crt.Runs.{Runs, Runs-bind, Runs-check_or, Runs-create, Runs-pure}
use aws_crt.S3.Message.{MessageAnswers, add_headers, build_s3_request_message, request_path}

add_headers-Runs :
    {h : List Resource} (a : MessageAnswers) (extra : List Header)
    → Runs (http_message ∷ h) (add_headers a extra) (http_message ∷ h) h
unfolding add_headers
add_headers-Runs a [] = Runs-pure tt
add_headers-Runs a (x ∷ xs) =
    Runs-bind (Runs-check_or _ http_message _ refl) (λ _. add_headers-Runs a xs)

-- The message is held when it has been built, and released where any call on it fails.
pub build-Runs :
    {h : List Resource} (a : MessageAnswers) (method bucket key region : List ℕ)
    (extra : List Header)
    → Runs h (build_s3_request_message a method bucket key region extra) (http_message ∷ h) h
unfolding build_s3_request_message
build-Runs a method bucket key region extra = Runs-bind (Runs-create http_message [] _ _ refl) (λ _.
    Runs-bind (Runs-check_or _ http_message _ refl) (λ _.
      Runs-bind (Runs-check_or _ http_message _ refl) (λ _.
        Runs-bind (Runs-check_or _ http_message _ refl)
          (λ _. Runs-bind (add_headers-Runs a extra) (λ _. Runs-pure _)))))

request_path-cases :
    (key : List ℕ)
    → ((starts_with key (47 ∷ []) ≡ true) × (request_path key ≡ key))
      ⊎ (request_path key ≡ 47 ∷ key)
unfolding request_path codes
request_path-cases key = elim (Bool-cases (starts_with key (47 ∷ []))) [
  | inl e ↦ inl (e, rw e refl)
  | inr e ↦ inr (rw e refl)
]

-- The path of a message starts with a slash. Two keys with the same path are the same, or one of them
-- is the other behind a slash.
pub request_path_lem :
    (k l : List ℕ)
    → (starts_with (request_path k) (47 ∷ []) ≡ true)
      × (request_path k ≡ request_path l → (k ≡ l) ⊎ ((k ≡ 47 ∷ l) ⊎ (l ≡ 47 ∷ k)))
request_path_lem k l = elim (request_path-cases k) [
  | inl (e, p) ↦ (
    rw p e,
    λ same. elim (request_path-cases l) [
      | inl (f, q) ↦ inl (sym p ∙ same ∙ q)
      | inr q ↦ inr (inl (sym p ∙ same ∙ q))
    ],
  )
  | inr p ↦ (
    rw p refl,
    λ same. elim (request_path-cases l) [
      | inl (f, q) ↦ inr (inr (sym q ∙ sym same ∙ p))
      | inr q ↦ inl (tail_same (sym p ∙ same ∙ q))
    ],
  )
]
  where
    tail_same : {x y : List ℕ} → 47 ∷ x ≡ 47 ∷ y → x ≡ y
    tail_same e = cc
