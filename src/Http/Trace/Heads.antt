-- ===== src/Http/Trace/Heads.antt =====
-- The status and the headers that make_streaming_request of ext/aws_crt/src/http.rs delivers, against those
-- that arrived.
use aws_crt.Prelude.{
  Bool, Bool-cases, List, Option, [], append-nil, append_assoc, false, if◌then◌else◌, inl, inr, not,
  refl, sym, true, ℕ, ◌++◌, ◌∙◌, ◌∷◌, ◌≡◌, ◌⊎◌,
}
use aws_crt.Prelude.Int.{pos, ℤ}
use aws_crt.Http.State.{Header, RequestState, is_positive, is_zero}
use aws_crt.Http.Callbacks.{Exchange, Phase, set_status, on_response_body, notify_one}
use aws_crt.Http.Callbacks.Headers.{on_response_headers_lem, with_headers}
use aws_crt.Http.Build.{Request, RequestOptions, MessageAnswers, build_request, built, new_state}
use aws_crt.Http.Run.{
  Caller, Returned, System, Yield, chunk_or_completion, deliver_headers, drain, clean, is_empty,
  last_round, next_round, on_chunks, on_headers, start, told, yield_chunks,
}
use aws_crt.Http.Trace.{
  Reaches, acquired, body_arrived, completed, ended, headers_arrived, round, started,
}
use aws_crt.Http.Fresh.{built-state}
use aws_crt.Http.Trace.Accounted.{is_none, is_over}
use aws_crt.Http.Trace.Resources.{Bool-rounds, Reaches-Sound, Sound, running}
use aws_crt.Http.Trace.Delivery.{Delivery, after, before, positive-nonzero}
use aws_crt.Http.Trace.Order.{acquired-Kept, completed-Kept, return_from-told}
use aws_crt.Http.Trace.Streamed.{Reaches-Streaming, Streaming, start-Streaming}
use aws_crt.Http.Trace.Released.{reached-Sound}

-- The first status that was reported and is not 0, if any.
abbrev pub first_status :
    {room : ℕ → Bool} {s₀ s : System} {cs : List (List ℕ)} → Reaches room s₀ cs s → ℤ
first_status started = pos 0
first_status (acquired t e connection code answers) = first_status t
first_status (headers_arrived t e status block q) =
    if is_zero (first_status t) then status else first_status t
first_status (body_arrived t e p bytes) = first_status t
first_status (completed t e code) = first_status t
first_status (round t e r w) = first_status t
first_status (ended t e r w) = first_status t

-- All headers that arrived.
abbrev pub all_headers :
    {room : ℕ → Bool} {s₀ s : System} {cs : List (List ℕ)} → Reaches room s₀ cs s → List Header
all_headers started = []
all_headers (acquired t e connection code answers) = all_headers t
all_headers (headers_arrived t e status block q) = all_headers t ++ block
all_headers (body_arrived t e p bytes) = all_headers t
all_headers (completed t e code) = all_headers t
all_headers (round t e r w) = all_headers t
all_headers (ended t e r w) = all_headers t

-- Those that arrived before the first part of the body.
abbrev pub first_headers :
    {room : ℕ → Bool} {s₀ s : System} {cs : List (List ℕ)} → Reaches room s₀ cs s → List Header
first_headers started = []
first_headers (acquired t e connection code answers) = first_headers t
first_headers (headers_arrived {cs} t e status block q) =
    first_headers t ++ (if is_empty cs then block else [])
first_headers (body_arrived t e p bytes) = first_headers t
first_headers (completed t e code) = first_headers t
first_headers (round t e r w) = first_headers t
first_headers (ended t e r w) = first_headers t

-- `first` is the beginning of `all`, and the whole of it as long as no part of the body arrived.
abbrev Begins : List (List ℕ) → List Header → List Header → Type 0
Begins cs first all =
    (more : List Header) × (all ≡ first ++ more) × (is_empty cs ≡ true → more ≡ [])

nonempty-append : (cs : List (List ℕ)) (c : List ℕ) → is_empty (cs ++ (c ∷ [])) ≡ false
nonempty-append [] c = refl
nonempty-append (d ∷ cs) c = refl

Begins-block :
    (cs : List (List ℕ)) (first all block : List Header)
    → Begins cs first all
    → Begins cs (first ++ (if is_empty cs then block else [])) (all ++ block)
Begins-block [] first all block (more, e, n) =
    ([], rw (e, n refl, append-nil first, append-nil (first ++ block)) refl, λ q. refl)
Begins-block (c ∷ cs) first all block (more, e, n) =
    (more ++ block, rw (e, append-nil first) (append_assoc first more block), λ q. cc)

all-Begins :
    {room : ℕ → Bool} {s₀ s : System} {cs : List (List ℕ)} (t : Reaches room s₀ cs s)
    → Begins cs (first_headers t) (all_headers t)
all-Begins started = ([], refl, λ q. refl)
all-Begins (acquired t e connection code answers) = all-Begins t
all-Begins (headers_arrived {cs} t e status block q) =
    Begins-block cs (first_headers t) (all_headers t) block (all-Begins t)
all-Begins (body_arrived {cs} t e p bytes) =
    let b = all-Begins t in (b.0, b.1, λ q. absurd (clash (nonempty-append cs bytes) q))
  where
    clash : {b : Bool} → b ≡ false → b ≡ true → ⊥
    clash e f = cc
all-Begins (completed t e code) = all-Begins t
all-Begins (round t e r w) = all-Begins t
all-Begins (ended t e r w) = all-Begins t

-- What the caller was told, from the first status, the first headers and all of them: nothing, and once
-- it has returned there was no status to tell; or the status and the headers that were there then. From
-- then on no header is one of the first.
pub data Heads (status : ℤ) (first all : List Header) (cs : List (List ℕ)) (phase : Phase)
    : Caller → Type 0 where
  silent :
      {c : Caller}
      → c.headers_delivered ≡ false
      → c.yields ≡ []
      → (is_none (c.returned) ≡ false → is_positive status ≡ false)
      → Heads status first all cs phase c
  spoken :
      {c : Caller} (more later : List Header) (ys : List Yield)
      → c.headers_delivered ≡ true
      → is_positive status ≡ true
      → c.yields ≡ on_headers status (first ++ more) ∷ ys
      → all ≡ (first ++ more) ++ later
      → (is_over phase ≡ true) ⊎ (is_empty cs ≡ false)
      → Heads status first all cs phase c

pub record Known (status : ℤ) (first all : List Header) (cs : List (List ℕ)) (s : System)
    : Type 0 where
  pub status_known : s.exchange.state.status_code ≡ status
  pub headers_known : s.exchange.state.headers ≡ all
  pub heads : Heads status first all cs (s.exchange.phase) (s.caller)

-- A callback that leaves the status and the headers alone.
frame-Known :
    {status : ℤ} {first all : List Header} {cs ds : List (List ℕ)} (s : System) (x : Exchange)
    → x.state.status_code ≡ s.exchange.state.status_code
    → x.state.headers ≡ s.exchange.state.headers
    → is_over (s.exchange.phase) ≡ false
    → (is_empty cs ≡ false → is_empty ds ≡ false)
    → Known status first all cs s
    → Known status first all ds (record s { exchange = x })
frame-Known {status} {first} {all} {cs} {ds} s x e f o n k = record {
  status_known = e ∙ k.status_known;
  headers_known = f ∙ k.headers_known;
  heads = moved (k.heads);
}
  where
    moved :
        Heads status first all cs (s.exchange.phase) (s.caller)
        → Heads status first all ds (x.phase) (s.caller)
    moved (silent d y w) = silent d y w
    moved (spoken more later ys d p y a (inl q)) = absurd (clash o q)
      where
        clash : {b : Bool} → b ≡ false → b ≡ true → ⊥
        clash e f = cc
    moved (spoken more later ys d p y a (inr q)) = spoken more later ys d p y a (inr (n q))

not_both : {b : Bool} → b ≡ false → b ≡ true → ⊥
not_both e f = cc

-- A block of headers after the headers were told.
headers-Heads :
    {status : ℤ} {first all : List Header} {cs : List (List ℕ)} {phase : Phase} {c : Caller}
    (told_status : ℤ) (block : List Header)
    → is_over phase ≡ false
    → is_none (c.returned) ≡ true
    → Heads status first all cs phase c
    → Heads
        (if is_zero status then told_status else status)
        (first ++ (if is_empty cs then block else []))
        (all ++ block)
        cs
        phase
        c
headers-Heads told_status block o r (silent d y w) = silent d y (λ q. absurd (not_both q r))
headers-Heads told_status block o r (spoken more later ys d p y a (inl q)) = absurd (not_both o q)
headers-Heads {status} {first} told_status block o r (spoken more later ys d p y a (inr q)) =
    rw (positive-nonzero status p, q, append-nil first)
      (spoken more (later ++ block) ys d p y (rw a (append_assoc (first ++ more) later block))
        (inr q))

headers-Known :
    {status : ℤ} {first all : List Header} {cs : List (List ℕ)} (told_status : ℤ)
    (block : List Header) (s : System) (x : Exchange)
    → x ≡ record (s.exchange) { state = with_headers told_status block (s.exchange.state) }
    → is_over (s.exchange.phase) ≡ false
    → is_none (s.caller.returned) ≡ true
    → Known status first all cs s
    → Known
        (if is_zero status then told_status else status)
        (first ++ (if is_empty cs then block else []))
        (all ++ block)
        cs
        (record s { exchange = x })
unfolding set_status
headers-Known {status} told_status block s x e o r k = rw e (record {
  status_known = set (k.status_known);
  headers_known = rw (k.headers_known) refl;
  heads = headers-Heads told_status block o r (k.heads);
})
  where
    set :
        s.exchange.state.status_code ≡ status
        → (set_status told_status (s.exchange.state)).status_code
          ≡ (if is_zero status then told_status else status)
    set q = elim (Bool-cases (is_zero (s.exchange.state.status_code))) [
      | inl z ↦ let z' : is_zero status ≡ true = rw⁻¹ q z in rw (z, z') refl
      | inr z ↦ let z' : is_zero status ≡ false = rw⁻¹ q z in rw (z, z') q
    ]

-- The end of a wait, with what was there to tell.
ready :
    {cs : List (List ℕ)} (s : RequestState) (phase : Phase)
    → s.complete ≡ is_over phase
    → s.chunks ≡ cs
    → chunk_or_completion s ≡ true
    → (is_over phase ≡ true) ⊎ (is_empty cs ≡ false)
unfolding chunk_or_completion
ready {cs} s phase f w d = elim (Bool-cases (s.complete)) [
  | inl e ↦ inl (sym f ∙ e)
  | inr e ↦ inr (full cs (rw (e, w) at d))
]
  where
    full : (ds : List (List ℕ)) → not (is_empty ds) ≡ true → is_empty ds ≡ false
    full [] e = cc
    full (c ∷ ds) e = refl

told-Heads :
    {status : ℤ} {first all : List Header} {cs : List (List ℕ)} (phase : Phase) (s : RequestState)
    (c : Caller)
    → s.status_code ≡ status
    → s.headers ≡ all
    → s.complete ≡ is_over phase
    → chunk_or_completion s ≡ true
    → Begins cs first all
    → Delivery cs s c
    → Heads status first all cs phase c
    → Heads status first all cs phase (yield_chunks s (deliver_headers s c))
unfolding yield_chunks deliver_headers
told-Heads {status} {first} {all} {cs} phase s c e h f d (more, b, _) (before u v w n)
      (silent _ y r) =
    elim (Bool-cases (is_positive (s.status_code))) [
      | inl p ↦
          rw (u, p)
            (spoken more [] (on_chunks (s.chunks)) refl (rw e at p) (rw (y, e, h, b) refl)
              (rw b (sym (append-nil (first ++ more)))) (ready s phase f w d))
      | inr p ↦
          let none_came : cs ≡ [] = nothing n p in
          rw (u, p) (silent refl (rw (y, w, none_came) refl) (λ q. rw e at p))
    ]
  where
    nothing :
        (cs ≡ []) ⊎ (is_positive (s.status_code) ≡ true)
        → is_positive (s.status_code) ≡ false
        → cs ≡ []
    nothing (inl e) p = e
    nothing (inr q) p = absurd (not_both p q)
told-Heads phase s c e h f d b (after status block ds u y w) (silent v _ r) = absurd (not_both v u)
told-Heads phase s c e h f d b delivery (spoken more later ys u p y a q) =
    rw u (spoken more later (ys ++ on_chunks (s.chunks)) refl p (rw y refl) a q)

-- A caller that differs in `returned` only.
returned-Heads :
    {status : ℤ} {first all : List Header} {cs : List (List ℕ)} {phase : Phase} {c : Caller}
    (v : Option Returned)
    → (c.headers_delivered ≡ false → is_positive status ≡ false)
    → Heads status first all cs phase c
    → Heads status first all cs phase (record c { returned = v })
returned-Heads v n (silent u y r) = silent u y (λ q. n u)
returned-Heads v n (spoken more later ys u p y a q) = spoken more later ys u p y a q

-- A round that told nothing met no positive status.
told-silent :
    (s : RequestState) (c : Caller)
    → (yield_chunks s (deliver_headers s c)).headers_delivered ≡ false
    → is_positive (s.status_code) ≡ false
unfolding yield_chunks deliver_headers
told-silent s c e = elim (Bool-cases (is_positive (s.status_code))) [
  | inr p ↦ p
  | inl p ↦ elim (Bool-cases (c.headers_delivered)) [
    | inl u ↦ absurd (true-false (rw u at e))
    | inr u ↦ absurd (true-false (rw (u, p) at e))
  ]
]
  where
    true-false : true ≡ false → ⊥
    true-false e = cc

-- What the two kinds of round leave of what is known.
round-Known :
    {status : ℤ} {first all : List Header} {cs : List (List ℕ)} (s : System)
    → s.exchange.state.complete ≡ is_over (s.exchange.phase)
    → chunk_or_completion (s.exchange.state) ≡ true
    → Begins cs first all
    → Streaming cs s
    → Known status first all cs s
    → Heads status first all cs (s.exchange.phase) (told s)
unfolding told
round-Known s f d b h k =
    told-Heads (s.exchange.phase) (s.exchange.state) (s.caller) (k.status_known) (k.headers_known) f
      d b (h.delivery) (k.heads)

last_round-Known :
    {status : ℤ} {first all : List Header} {cs : List (List ℕ)} (s : System)
    → Heads status first all cs (s.exchange.phase) (told s)
    → Known status first all cs s
    → Known status first all cs (last_round s)
unfolding last_round clean drain told
last_round-Known {status} s h k = record {
  status_known = k.status_known;
  headers_known = k.headers_known;
  heads = rw (return_from-told s) (
      returned-Heads _ (λ q. rw (k.status_known) at (told-silent (s.exchange.state) (s.caller) q))
        h);
}

next_round-Known :
    {status : ℤ} {first all : List Header} {cs : List (List ℕ)} (s : System)
    → Heads status first all cs (s.exchange.phase) (told s)
    → Known status first all cs s
    → Known status first all cs (next_round s)
unfolding next_round drain
next_round-Known s h k = record {
  status_known = k.status_known;
  headers_known = k.headers_known;
  heads = h;
}

body-frame :
    (bytes : List ℕ) (x : Exchange)
    → ((on_response_body bytes x).state.status_code ≡ x.state.status_code)
      × ((on_response_body bytes x).state.headers ≡ x.state.headers)
unfolding on_response_body notify_one
body-frame bytes x = elim (Bool-cases (x.state.streaming)) [
  | inl e ↦ rw e (refl, refl)
  | inr e ↦ rw e (refl, refl)
]

module _ {room : ℕ → Bool} {s₀ : System} (sound : Sound s₀) (streaming : Streaming [] s₀)
    (fresh : Known (pos 0) [] [] [] s₀) where
  Reaches-Known :
      {s : System} {cs : List (List ℕ)} (t : Reaches room s₀ cs s)
      → Known (first_status t) (first_headers t) (all_headers t) cs s
  unfolding Sound
  Reaches-Known started = fresh
  Reaches-Known (acquired {s = s} t e connection code answers) =
      let k = acquired-Kept connection code answers (s.exchange) in
      frame-Known s _ (k.same_status) (k.same_headers) (rw e refl) (λ q. q) (Reaches-Known t)
  Reaches-Known (headers_arrived {s = s} t e status block {x} q) =
      headers-Known status block s x (on_response_headers_lem room status block (s.exchange) x q)
        (rw e refl) (rw (running s (Reaches-Sound sound t) (λ p. cc)) refl) (Reaches-Known t)
  Reaches-Known (body_arrived {cs} {s = s} t e p bytes) =
      let f = body-frame bytes (s.exchange) in
      frame-Known s _ (f.0) (f.1) (rw e refl) (λ q. nonempty-append cs bytes) (Reaches-Known t)
  Reaches-Known (completed {s = s} t e code) =
      let k = completed-Kept code (s.exchange) in
      frame-Known s _ (k.same_status) (k.same_headers) (rw e refl) (λ q. q) (Reaches-Known t)
  Reaches-Known (round {cs} {s} t e r w) =
      let k = Reaches-Known t in
      let h =
        round-Known s ((Reaches-Sound sound t).flag) w (all-Begins t)
          (Reaches-Streaming sound streaming t) k in
      Bool-rounds (Known (first_status t) (first_headers t) (all_headers t) cs) s
        (λ c. last_round-Known s h k) (λ c. next_round-Known s h k)
  Reaches-Known (ended {s = s} t e r w) =
      absurd (not_both e ((Reaches-Streaming sound streaming t).streams))

-- A streaming request at any point of any order of steps.
pub reached-Known :
    {room : ℕ → Bool} (answers : MessageAnswers) (opts : RequestOptions) {r : Request} {s : System}
    {cs : List (List ℕ)}
    → build_request answers opts ≡ built r
    → opts.streaming ≡ true
    → (t : Reaches room (start r) cs s)
    → Known (first_status t) (first_headers t) (all_headers t) cs s
unfolding start new_state
reached-Known {room} answers opts {r} e f t =
    let same = built-state answers opts e in
    Reaches-Known (reached-Sound {room = room} answers opts e started)
      (start-Streaming answers opts r e f)
      (record {
        status_known = rw same refl;
        headers_known = rw same refl;
        heads = silent refl refl (λ q. cc);
      })
      t
