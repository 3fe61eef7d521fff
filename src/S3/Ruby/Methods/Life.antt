-- ===== src/S3/Ruby/Methods/Life.antt =====
-- The life of an AwsCrt::S3::Client of ext/aws_crt/src/s3_ruby.rs: any sequence of calls of its methods.
use aws_crt.Prelude.{List, Option, [], ap, none, refl, some, true, ℕ, ◌∙◌, ◌∷◌, ◌≡◌}
use aws_crt.Crt.Resource.{
  Call, Resource, client_bootstrap, credentials_provider, elem, replay, s3_client, tls_ctx,
}
use aws_crt.Crt.Action.{Ended, M, failed, log_of, panicked, pure, returned}
use aws_crt.Crt.Runs.{Runs, Settled, Settled-held, gave_up, settled}
use aws_crt.Crt.Yields.{Yields, Yields-bind}
use aws_crt.S3.Client.{ClientAnswers, S3Client, S3ClientOptions, new_client}
use aws_crt.S3.Options.{RequestAnswers, fits_c_string, is_some}
use aws_crt.S3.Ruby.{Outcome, Ruby, and_then, error, value}
use aws_crt.S3.Ruby.Sendable.{Given}
use aws_crt.S3.Ruby.Reply.{ResponseHash}
use aws_crt.S3.Ruby.Params.{
  GetParams, PutParams, client_options, get_params, put_params, request_credentials,
}
use aws_crt.S3.Ruby.Methods.{
  RubyS3Client, drop_inner, get_call, if_initialized, initialize_with, put_call, rb_get_object,
  rb_initialize, rb_put_object, with_client,
}
use aws_crt.S3.Ruby.Methods.Held.{get_call-Runs, initialize_with-Runs, owned, put_call-Runs}

abbrev pub Credentials : Type 0
Credentials = List ℕ × List ℕ × Option (List ℕ)

-- A call of a method with its hash, and the CRT's answers to it.
pub data Method (Hash F : Type 0) : Type 0 where
  initialize : ClientAnswers F → Hash → Method Hash F
  get : ClientAnswers F → RequestAnswers → Hash → Method Hash F
  put : ClientAnswers F → RequestAnswers → Hash → Method Hash F

-- The object after initialize: an error leaves it as it was.
abbrev self_after : {F : Type 0} → RubyS3Client F → Ended (RubyS3Client F) → RubyS3Client F
self_after rb_self (returned new log) = new
self_after rb_self (failed code log) = rb_self
self_after rb_self (panicked log) = rb_self

-- What raises before any call of the CRT changes nothing.
abbrev after_initialize :
    {F : Type 0}
    → RubyS3Client F
    → List Call
    → Outcome (M (RubyS3Client F))
    → RubyS3Client F × List Call
after_initialize rb_self log (error e) = (rb_self, log)
after_initialize rb_self log (value m) = let e = m log in (self_after rb_self e, log_of e)

abbrev after_request : List Call → Outcome (M ResponseHash) → List Call
after_request log (error e) = log
after_request log (value m) = log_of (m log)

module _ {Value Hash F : Type 0} (ruby : Ruby Value Hash F) where
  unfoldable pub call_method :
      Method Hash F → RubyS3Client F → List Call → RubyS3Client F × List Call
  call_method (initialize a hash) rb_self log =
      after_initialize rb_self log (rb_initialize a ruby rb_self hash)
  call_method (get a crt params) rb_self log =
      (rb_self, after_request log (rb_get_object a crt ruby rb_self params))
  call_method (put a crt params) rb_self log =
      (rb_self, after_request log (rb_put_object a crt ruby rb_self params))

  unfoldable pub call_methods :
      List (Method Hash F) → RubyS3Client F → List Call → RubyS3Client F × List Call
  call_methods [] rb_self log = (rb_self, log)
  call_methods (m ∷ ms) rb_self log =
      let next = call_method m rb_self log in call_methods ms (next.0) (next.1)

  -- No path of a file that is read of a hash has a zero byte.
  abbrev Fits : Method Hash F → Type 0
  Fits (initialize a hash) = Unit {0}
  Fits (get a crt params) =
      Given (λ p. fits_c_string (p.recv_filepath) ≡ true) (get_params ruby params)
  Fits (put a crt params) =
      Given (λ p. fits_c_string (p.send_filepath) ≡ true) (put_params ruby params)

  abbrev pub AllFit : List (Method Hash F) → Type 0
  AllFit [] = Unit {0}
  AllFit (m ∷ ms) = Fits m × AllFit ms

elem-owned :
    {F : Type 0} (c : Option (S3Client F)) (h : List Resource)
    → elem client_bootstrap h ≡ true
    → elem client_bootstrap (owned c h) ≡ true
elem-owned none h e = e
elem-owned (some client) h e = e

-- A client that initialize returns is there.
abbrev Present : {F : Type 0} → RubyS3Client F → Type 0
Present rb_self = is_some (rb_self.inner) ≡ true

initialize_with-Present :
    {F : Type 0} (a : ClientAnswers F) (rb_self : RubyS3Client F) (options : S3ClientOptions F)
    (log : List Call)
    → Yields Present (initialize_with a rb_self options log)
unfolding initialize_with pure
initialize_with-Present a rb_self options log =
    Yields-bind Present (new_client a options) _
      (λ client. Yields-bind Present (drop_inner (rb_self.inner)) _ (λ done log. refl)) log

-- The client, its TLS context and its provider are held exactly when the object has a client.
abbrev pub Sound :
    {F : Type 0} → List Resource → List Resource → RubyS3Client F × List Call → Type 0
Sound base h x = replay base (x.1) ≡ some (owned (x.0.inner) h)

owned_present :
    {F : Type 0} (c : Option (S3Client F)) (h : List Resource)
    → is_some c ≡ true
    → s3_client ∷ tls_ctx ∷ credentials_provider ∷ h ≡ owned c h
owned_present none h e = cc
owned_present (some client) h e = refl

initialize-Sound :
    {F : Type 0} {base h : List Resource} (rb_self : RubyS3Client F) (t : Ended (RubyS3Client F))
    → Settled base (s3_client ∷ tls_ctx ∷ credentials_provider ∷ h) (owned (rb_self.inner) h) t
    → Yields Present t
    → Sound base h (self_after rb_self t, log_of t)
initialize-Sound {h} rb_self _ (settled {a} e) y = e ∙ ap some (owned_present (a.inner) h y)
initialize-Sound rb_self _ (gave_up e) y = e

module _ {F : Type 0} (base h : List Resource) where
  request-held :
      (c : Option (S3Client F)) (credentials : Outcome Credentials)
      (f : S3Client F → Credentials → M ResponseHash) (log : List Call)
      → ((client : S3Client F) (cs : Credentials)
          → Runs
              (s3_client ∷ tls_ctx ∷ credentials_provider ∷ h)
              (f client cs)
              (s3_client ∷ tls_ctx ∷ credentials_provider ∷ h)
              (s3_client ∷ tls_ctx ∷ credentials_provider ∷ h))
      → replay base log ≡ some (owned c h)
      → replay base (
          after_request log
            (if_initialized c (λ client. and_then credentials (λ cs. value (f client cs)))))
        ≡ some (owned c h)
  request-held none credentials f log k e = e
  request-held (some client) (error x) f log k e = e
  request-held (some client) (value cs) f log k e = Settled-held ((k client cs).ends base log e)

  module _ (a : ClientAnswers F) (rb_self : RubyS3Client F) (log : List Call)
      (e : Sound base h (rb_self, log)) where
    initialized-Sound :
        (options : Outcome (S3ClientOptions F))
        → elem client_bootstrap h ≡ true
        → Sound base h (
            after_initialize rb_self log
              (and_then options (λ o. value (initialize_with a rb_self o))))
    initialized-Sound (error x) started = e
    initialized-Sound (value o) started =
        initialize-Sound rb_self _
          ((initialize_with-Runs a rb_self o (elem-owned (rb_self.inner) h started)).ends base log
            e)
          (initialize_with-Present a rb_self o log)

    got-held :
        (crt : RequestAnswers) (p : Outcome GetParams) (credentials : Outcome Credentials)
        → Given (λ q. fits_c_string (q.recv_filepath) ≡ true) p
        → replay base (
            after_request log (
              and_then p (λ q.
                if_initialized
                  (rb_self.inner)
                  (λ client. and_then credentials (λ cs. value (get_call a crt q client cs))))))
          ≡ some (owned (rb_self.inner) h)
    got-held crt (error x) credentials fit = e
    got-held crt (value q) credentials fit =
        request-held (rb_self.inner) credentials _ log
          (λ client cs. get_call-Runs a crt client cs q refl fit) e

    put-held :
        (crt : RequestAnswers) (p : Outcome PutParams) (credentials : Outcome Credentials)
        → Given (λ q. fits_c_string (q.send_filepath) ≡ true) p
        → replay base (
            after_request log (
              and_then p (λ q.
                if_initialized
                  (rb_self.inner)
                  (λ client. and_then credentials (λ cs. value (put_call a crt q client cs))))))
          ≡ some (owned (rb_self.inner) h)
    put-held crt (error x) credentials fit = e
    put-held crt (value q) credentials fit =
        request-held (rb_self.inner) credentials _ log
          (λ client cs. put_call-Runs a crt client cs q refl fit) e

module _ {Value Hash F : Type 0} (ruby : Ruby Value Hash F) (base h : List Resource) where
  call_method-Sound :
      (m : Method Hash F) (rb_self : RubyS3Client F) (log : List Call)
      → elem client_bootstrap h ≡ true
      → Fits ruby m
      → Sound base h (rb_self, log)
      → Sound base h (call_method ruby m rb_self log)
  unfolding call_method rb_initialize rb_get_object rb_put_object with_client
  call_method-Sound (initialize a hash) rb_self log started fit e =
      initialized-Sound base h a rb_self log e (client_options ruby hash) started
  call_method-Sound (get a crt params) rb_self log started fit e =
      got-held base h a rb_self log e crt (get_params ruby params) (request_credentials ruby params)
        fit
  call_method-Sound (put a crt params) rb_self log started fit e =
      put-held base h a rb_self log e crt (put_params ruby params) (request_credentials ruby params)
        fit

  -- Whatever methods are called on an AwsCrt::S3::Client, in any order, with any hashes and any answers of
  -- the CRT: if before the calls its client, the client's TLS context and the client's provider are held
  -- over h where it has a client, and h alone is held where it has none, then so it is behind them; a request
  -- leaves nothing of its own held. The client bootstrap is in h, and no path of a file has a zero byte.
  pub call_methods-Sound :
      (ms : List (Method Hash F)) (rb_self : RubyS3Client F) (log : List Call)
      → elem client_bootstrap h ≡ true
      → AllFit ruby ms
      → Sound base h (rb_self, log)
      → Sound base h (call_methods ruby ms rb_self log)
  unfolding call_methods
  call_methods-Sound [] rb_self log started fit e = e
  call_methods-Sound (m ∷ ms) rb_self log started (fit, rest) e =
      call_methods-Sound ms _ _ started rest (call_method-Sound m rb_self log started fit e)
