-- ===== src/Http/Callbacks/Headers.antt =====
-- What on_response_headers of ext/aws_crt/src/http.rs does to the state when it returns.
use aws_crt.Prelude.{
  Bool, Bool-cases, List, Option-cases, [], ap, append-nil, append_assoc, inl, inr, length, none,
  refl, some, ℕ, ◌++◌, ◌∙◌, ◌∷◌, ◌≡◌,
}
use aws_crt.Prelude.Int.{ℤ}
use aws_crt.Http.State.{Header, RequestState, is_zero}
use aws_crt.Http.Callbacks.{
  Exchange, on_response_headers, push_headers, reservation, reserve, set_status,
}

append_one :
    {A : Type 0} (xs : List A) (y : A) (ys : List A) → (xs ++ (y ∷ [])) ++ ys ≡ xs ++ (y ∷ ys)
append_one xs y ys = append_assoc xs (y ∷ []) ys

push_headers_lem :
    (room : ℕ → Bool) (hs : List Header) (s : RequestState) {t : RequestState}
    → push_headers room hs s ≡ some t
    → t ≡ record s { headers = s.headers ++ hs }
unfolding push_headers
push_headers_lem room [] s e = rw append-nil (cc)
push_headers_lem room (h ∷ hs) s e =
    elim (Bool-cases (reserve room (length (s.body)) (reservation (s.streaming) h))) [
      | inl r ↦
          push_headers_lem room hs (record s { headers = s.headers ++ (h ∷ []) }) (rw r at e)
          ∙ ap (λ l. record s { headers = l }) (append_one (s.headers) h hs)
      | inr r ↦ absurd (none-some (rw r at e))
    ]
  where
    none-some : {t : RequestState} → none ≡ some t → ⊥
    none-some e = cc

-- The state after a block of headers.
abbrev pub with_headers : ℤ → List Header → RequestState → RequestState
with_headers status block s = record (set_status status s) { headers = s.headers ++ block }

set_status-headers : (status : ℤ) (s : RequestState) → (set_status status s).headers ≡ s.headers
unfolding set_status
set_status-headers status s = elim (Bool-cases (is_zero (s.status_code))) [
  | inl e ↦ rw e refl
  | inr e ↦ rw e refl
]

pub on_response_headers_lem :
    (room : ℕ → Bool) (status : ℤ) (block : List Header) (x y : Exchange)
    → on_response_headers room status block x ≡ some y
    → y ≡ record x { state = with_headers status block (x.state) }
unfolding on_response_headers
on_response_headers_lem room status block x y e =
    elim (Option-cases (push_headers room block (set_status status (x.state)))) [
      | inl n ↦ absurd (none-some (rw (n, on_response_headers) at e))
      | inr (t, n) ↦
          some-injective (rw (n, on_response_headers) at e)
          ∙ ap (λ s. record x { state = s })
              (push_headers_lem room block (set_status status (x.state)) n
                ∙ rw (set_status-headers status (x.state)) refl)
    ]
  where
    none-some : {t : Exchange} → none ≡ some t → ⊥
    none-some e = cc

    some-injective : {t u : Exchange} → some t ≡ some u → u ≡ t
    some-injective e = cc

pub set_status-keeps :
    (status : ℤ) (s : RequestState)
    → ((set_status status s).streaming ≡ s.streaming)
      × ((set_status status s).chunks ≡ s.chunks)
      × ((set_status status s).body ≡ s.body)
unfolding set_status
set_status-keeps status s = elim (Bool-cases (is_zero (s.status_code))) [
  | inl e ↦ rw e (refl, refl, refl)
  | inr e ↦ rw e (refl, refl, refl)
]
