-- ===== src/Http/Fresh.antt =====
-- The state that build_request of ext/aws_crt/src/http.rs makes.
use aws_crt.Prelude.{
  Bool, Bool-cases, List, Option, [], false, if◌then◌else◌, inl, inr, none, not, refl, some, true,
  ℕ, ◌∷◌, ◌≡◌,
}
use aws_crt.Http.State.{is_zero}
use aws_crt.Http.Build.{
  Built, MessageAnswers, Request, RequestOptions, add_headers, build_failed, build_request, built,
  new_request, new_state, set_body,
}

abbrev IsFresh : RequestOptions → Built → Type 0
IsFresh opts (built r) = r.exchange.state ≡ new_state (opts.manager) (opts.streaming)
IsFresh opts (build_failed code log) = Unit

set_body-IsFresh :
    (answers : MessageAnswers) (opts : RequestOptions) (body : Option (List ℕ))
    → IsFresh opts (set_body answers opts body)
unfolding set_body new_request
set_body-IsFresh answers opts none = refl
set_body-IsFresh answers opts (some []) = refl
set_body-IsFresh answers opts (some (b ∷ bs)) =
    elim (Bool-cases (answers.input_stream_made (b ∷ bs))) [ inl e ↦ rw e refl | inr e ↦ rw e tt ]

IsFresh-if :
    (opts : RequestOptions) (b : Bool) (r t : Built)
    → IsFresh opts r
    → IsFresh opts t
    → IsFresh opts (if b then r else t)
IsFresh-if opts true r t h k = h
IsFresh-if opts false r t h k = k

build_request-IsFresh :
    (answers : MessageAnswers) (opts : RequestOptions) → IsFresh opts (build_request answers opts)
unfolding build_request
build_request-IsFresh answers opts = IsFresh-if opts (not (answers.message_made)) _ _ tt (
    IsFresh-if opts (not (is_zero (answers.set_request_method (opts.method)))) _ _ tt (
      IsFresh-if opts (not (is_zero (answers.set_request_path (opts.path)))) _ _ tt (
        IsFresh-if opts (not (add_headers (answers.add_header) (opts.headers))) _ _ tt
          (set_body-IsFresh answers opts (opts.body)))))

pub built-state :
    (answers : MessageAnswers) (opts : RequestOptions) {r : Request}
    → build_request answers opts ≡ built r
    → r.exchange.state ≡ new_state (opts.manager) (opts.streaming)
built-state answers opts e = rw e at (build_request-IsFresh answers opts)
