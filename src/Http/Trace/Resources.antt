-- ===== src/Http/Trace/Resources.antt =====
-- A request of ext/aws_crt/src/http.rs keeps account of what it holds, in every order of steps.
use aws_crt.Prelude.{
  Bool, Bool-cases, List, Option-cases, [], false, if◌then◌else◌, inl, inr, none, not, refl, true,
  ℕ, ◌&&◌, ◌≡◌,
}
use aws_crt.Http.State.{RequestState, is_positive, is_zero}
use aws_crt.Http.Callbacks.{over}
use aws_crt.Http.Run.{
  Caller, System, buffered_end, clean, completion, deliver_headers, drain, last_round, next_round,
  return_from, streaming_round, told, yield_chunks,
}
use aws_crt.Http.Trace.{
  Reaches, acquired, body_arrived, completed, ended, headers_arrived, round, started,
}
use aws_crt.Http.Trace.Accounted.{
  Accounted, acquired-Accounted, body-Accounted, clean-Accounted, completed-Accounted,
  frame-Accounted, headers-Accounted, is_none,
}

deliver_headers-returned :
    (s : RequestState) (c : Caller) → (deliver_headers s c).returned ≡ c.returned
unfolding deliver_headers
deliver_headers-returned s c =
    elim (Bool-cases (not (c.headers_delivered) && is_positive (s.status_code))) [
      | inl e ↦ rw e refl
      | inr e ↦ rw e refl
    ]

pub return_from-returned :
    (s : RequestState) (c : Caller) → is_none ((return_from s c).returned) ≡ false
unfolding return_from
return_from-returned s c = elim (Bool-cases (is_zero (s.error_code))) [
  | inl e ↦ rw e refl
  | inr e ↦ rw e refl
]

unfoldable pub Sound : System → Type 0
Sound s = Accounted (s.exchange) (s.context.body_stream) (is_none (s.caller.returned))

pub Bool-rounds :
    (P : System → Type 0) (s : System)
    → (s.exchange.state.complete ≡ true → P (last_round s))
    → (s.exchange.state.complete ≡ false → P (next_round s))
    → P (streaming_round s)
unfolding streaming_round
Bool-rounds P s last next = go (s.exchange.state.complete) last next
  where
    go :
        (b : Bool)
        → (b ≡ true → P (last_round s))
        → (b ≡ false → P (next_round s))
        → P (if b then last_round s else next_round s)
    go true last next = last refl
    go false last next = next refl

last_round-Sound :
    (s : System)
    → s.caller.returned ≡ none
    → Sound s
    → s.exchange.state.complete ≡ true
    → Sound (last_round s)
unfolding Sound last_round clean drain
last_round-Sound s e a c = rw (return_from-returned (s.exchange.state) (told s)) (
    clean-Accounted (s.context) (s.exchange) (record (s.exchange.state) { chunks = [] }) c c
      (rw e at a))

next_round-Sound : (s : System) → Sound s → Sound (next_round s)
unfolding Sound next_round drain told yield_chunks
next_round-Sound s a =
    rw (deliver_headers-returned (s.exchange.state) (s.caller))
      (frame-Accounted (s.exchange) _ refl refl a)

round-Sound : (s : System) → s.caller.returned ≡ none → Sound s → Sound (streaming_round s)
round-Sound s e a = Bool-rounds Sound s (last_round-Sound s e a) (λ c. next_round-Sound s a)

end-Sound :
    (s : System)
    → s.caller.returned ≡ none
    → s.exchange.state.complete ≡ true
    → Sound s
    → Sound (buffered_end s)
unfolding Sound buffered_end clean
end-Sound s e c a = elim (Bool-cases (is_zero (s.exchange.state.error_code))) [
  | inl z ↦ rw z (clean-Accounted (s.context) (s.exchange) _ c c (rw e at a))
  | inr z ↦ rw z (clean-Accounted (s.context) (s.exchange) _ c c (rw e at a))
]

-- While the stream is active or awaited, the caller has not returned.
pub running : (s : System) → Sound s → ¬ (s.exchange.phase ≡ over) → s.caller.returned ≡ none
unfolding Sound
running s a n = elim (Option-cases (s.caller.returned)) [
  | inl e ↦ e
  | inr (r, e) ↦ absurd (n (a.waits (rw e refl)))
]

pub Reaches-Sound :
    {room : ℕ → Bool} {s₀ s : System} {cs : List (List ℕ)}
    → Sound s₀
    → Reaches room s₀ cs s
    → Sound s
unfolding Sound completion
Reaches-Sound h started = h
Reaches-Sound h (acquired {s} t e connection code answers) =
    let a = Reaches-Sound h t in
    let r = running s a (λ q. cc) in
    rw r (acquired-Accounted connection code answers (s.exchange) e (rw r at a))
Reaches-Sound h (headers_arrived {s} t e status block {x} q) =
    headers-Accounted _ status block (s.exchange) x q (Reaches-Sound h t)
Reaches-Sound h (body_arrived {s} t e p bytes) =
    body-Accounted bytes (s.exchange) (Reaches-Sound h t)
Reaches-Sound h (completed {s} t e code) =
    let a = Reaches-Sound h t in
    let r = running s a (λ q. cc) in rw r (completed-Accounted code (s.exchange) e (rw r at a))
Reaches-Sound h (round {s} t e r w) = round-Sound s r (Reaches-Sound h t)
Reaches-Sound h (ended {s} t e r w) = end-Sound s r w (Reaches-Sound h t)
