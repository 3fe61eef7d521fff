-- ===== src/Http/Trace/Released.antt =====
-- From build_request to the return of a request of ext/aws_crt/src/http.rs: everything is given back.
use aws_crt.Prelude.{
  Bool, Bool-cases, List, Option, [], ap, false, if◌then◌else◌, inl, inr, none, not, refl, some,
  sym, true, ℕ, ◌↔◌, ◌∙◌, ◌∷◌, ◌≡◌,
}
use aws_crt.Prelude.Int.{ℤ}
use aws_crt.Http.State.{Call, acquire, release, message, is_zero, nothing_held, replay}
use aws_crt.Http.Callbacks.{awaiting, over}
use aws_crt.Http.Build.{
  Built, MessageAnswers, Request, RequestOptions, add_headers, build_failed, build_request, built,
  new_request, new_state, set_body,
}
use aws_crt.Http.Run.{Returned, System, completion, start}
use aws_crt.Http.Trace.{Reaches}
use aws_crt.Http.Trace.Accounted.{expected, is_over-over}
use aws_crt.Http.Trace.Resources.{Reaches-Sound, Sound}

-- The calls of a build that fails: where the message was made, it is given back.
abbrev pub only_message : Bool → List Call
only_message message_made = if message_made then release message ∷ acquire message ∷ [] else []

-- What a build leaves: a request in good order, or these calls and the error.
abbrev Settled : MessageAnswers → Built → Type 0
Settled answers (built r) = Sound (start r)
Settled answers (build_failed code log) =
    (log ≡ only_message (answers.message_made)) × (code ≡ answers.last_error)

fresh :
    (opts : RequestOptions) (b : Bool) (data_ : Option (List ℕ)) (log : List Call)
    → replay log ≡ some (expected awaiting b true)
    → Sound (start (new_request opts b data_ log))
unfolding Sound start new_request new_state
fresh opts b data_ log h = record { log = h; flag = refl; stored = λ e. cc; waits = λ e. cc }

set_body-Settled :
    (answers : MessageAnswers) (opts : RequestOptions) (body : Option (List ℕ))
    → answers.message_made ≡ true
    → Settled answers (set_body answers opts body)
unfolding set_body
set_body-Settled answers opts none m = fresh opts false none _ refl
set_body-Settled answers opts (some []) m = fresh opts false none _ refl
set_body-Settled answers opts (some (b ∷ bs)) m =
    elim (Bool-cases (answers.input_stream_made (b ∷ bs))) [
      | inl e ↦ rw e (fresh opts true (some (b ∷ bs)) _ refl)
      | inr e ↦ rw e (ap only_message (sym m), refl)
    ]

Settled-if :
    (answers : MessageAnswers) (b : Bool) (r t : Built)
    → (b ≡ true → Settled answers r)
    → (b ≡ false → Settled answers t)
    → Settled answers (if b then r else t)
Settled-if answers true r t h k = h refl
Settled-if answers false r t h k = k refl

not-false : (b : Bool) → not b ≡ true → b ≡ false
not-false true e = cc
not-false false e = refl

not-true : (b : Bool) → not b ≡ false → b ≡ true
not-true true e = refl
not-true false e = cc

build_request-Settled :
    (answers : MessageAnswers) (opts : RequestOptions)
    → Settled answers (build_request answers opts)
unfolding build_request
build_request-Settled answers opts =
    Settled-if answers (not (answers.message_made)) _ _
      (λ e. (ap only_message (sym (not-false (answers.message_made) e)), refl))
      (λ e.
        let made = not-true (answers.message_made) e in
        let refused : (release message ∷ acquire message ∷ [] ≡ only_message (answers.message_made))
            × (answers.last_error ≡ answers.last_error) =
          (ap only_message (sym made), refl) in
        Settled-if answers (not (is_zero (answers.set_request_method (opts.method)))) _ _
          (λ _. refused)
          (λ _.
            Settled-if answers (not (is_zero (answers.set_request_path (opts.path)))) _ _
              (λ _. refused)
              (λ _.
                Settled-if answers (not (add_headers (answers.add_header) (opts.headers))) _ _
                  (λ _. refused) (λ _. set_body-Settled answers opts (opts.body) made))))

-- When build_request fails, at whichever call of the CRT, its error is the last one of the CRT; where
-- the message was made, all that was taken and given back is this message, once; and where it could not
-- be made, nothing was.
pub build_request-released :
    (answers : MessageAnswers) (opts : RequestOptions) (code : ℤ) (log : List Call)
    → build_request answers opts ≡ build_failed code log
    → (log ≡ only_message (answers.message_made)) × (code ≡ answers.last_error)
build_request-released answers opts code log e = rw e at (build_request-Settled answers opts)

-- A request that build_request made, at any point of any order of steps.
pub reached-Sound :
    {room : ℕ → Bool} (answers : MessageAnswers) (opts : RequestOptions) {r : Request} {s : System}
    {cs : List (List ℕ)}
    → build_request answers opts ≡ built r
    → Reaches room (start r) cs s
    → Sound s
reached-Sound answers opts e t = Reaches-Sound (rw e at (build_request-Settled answers opts)) t

-- In every order of the callbacks and of the caller's waits, whatever the CRT answers: once
-- make_request or make_streaming_request returns, with a response or an error, no callback follows, and
-- of the message, the input stream, the connection and the HTTP stream, each that was taken was given
-- back, and no call gave back what was not held.
pub returned-released :
    {room : ℕ → Bool} (answers : MessageAnswers) (opts : RequestOptions) {r : Request} {s : System}
    {cs : List (List ℕ)} (v : Returned)
    → build_request answers opts ≡ built r
    → Reaches room (start r) cs s
    → s.caller.returned ≡ some v
    → (s.exchange.phase ≡ over) × (replay (s.exchange.calls) ≡ some nothing_held)
unfolding Sound
returned-released answers opts {s} v e t q =
    let a = reached-Sound answers opts e t in
    let o : s.exchange.phase ≡ over = a.waits (rw q refl) in (o, rw (o, q) at (a.log))

-- At every point, `complete` is set exactly when no callback can
-- follow, whichever callback was the last: the waits of the caller end then and not before.
pub complete-over :
    {room : ℕ → Bool} (answers : MessageAnswers) (opts : RequestOptions) {r : Request} {s : System}
    {cs : List (List ℕ)}
    → build_request answers opts ≡ built r
    → Reaches room (start r) cs s
    → (completion (s.exchange.state) ≡ true) ↔ (s.exchange.phase ≡ over)
unfolding Sound completion
complete-over answers opts {s} e t =
    let a = reached-Sound answers opts e t in
    (λ c. is_over-over (s.exchange.phase) (sym (a.flag) ∙ c), λ o. a.flag ∙ rw o refl)
