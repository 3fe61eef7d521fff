-- ===== src/S3/Transfer/Waits.antt =====
-- The callbacks of ext/aws_crt/src/s3_request.rs and the waiting thread in any order.
use aws_crt.Prelude.{
  Bool, List, Option, [], ap, false, if-false, none, refl, some, sym, true, ◌++◌, ◌∙◌, ◌∷◌, ◌≡◌,
}
use aws_crt.S3.Transfer.{
  ChecksumNames, Event, MetaRequestResult, MetaRequestState, body_callback, body_came,
  extract_result, finish_callback, headers_callback, headers_came, new_shared_state, on_event,
  progress_callback, progressed, wait_for_completion,
}
use aws_crt.S3.Transfer.Told.{extract_result-told, told}

-- The points that a request can reach: what the CRT has called, its last callback if that has come, the
-- state, and whether wait_for_completion has returned. The CRT calls finish_callback once, behind all
-- others. The waiting thread can wake up at any point, also for nothing; each callback and each look at
-- `complete` holds the lock.
pub data Reaches (names : ChecksumNames) (with_body : Bool)
    : List Event → Option MetaRequestResult → MetaRequestState → Bool → Type 0 where
  begin : Reaches names with_body [] none new_shared_state false
  called :
      {es : List Event} {s : MetaRequestState} {returned : Bool} (e : Event)
      → Reaches names with_body es none s returned
      → Reaches names with_body (es ++ (e ∷ [])) none (on_event with_body e s) returned
  ended :
      {es : List Event} {s : MetaRequestState} {returned : Bool} (r : MetaRequestResult)
      → Reaches names with_body es none s returned
      → Reaches names with_body es (some r) (finish_callback names r s) returned
  woke :
      {es : List Event} {last : Option MetaRequestResult} {s : MetaRequestState}
      → Reaches names with_body es last s false
      → Reaches names with_body es last s (s.complete)

-- The state that the callbacks leave, without a look at the waiting thread.
abbrev after_events : Bool → List Event → MetaRequestState → MetaRequestState
after_events with_body [] s = s
after_events with_body (e ∷ es) s = after_events with_body es (on_event with_body e s)

abbrev after : ChecksumNames → Option MetaRequestResult → MetaRequestState → MetaRequestState
after names none s = s
after names (some r) s = finish_callback names r s

after_events-append :
    (with_body : Bool) (es : List Event) (e : Event) (s : MetaRequestState)
    → after_events with_body (es ++ (e ∷ [])) s ≡ on_event with_body e (after_events with_body es s)
after_events-append with_body [] e s = refl
after_events-append with_body (x ∷ es) e s =
    after_events-append with_body es e (on_event with_body x s)

Reaches-state :
    {names : ChecksumNames} {with_body : Bool} {es : List Event} {last : Option MetaRequestResult}
    {s : MetaRequestState} {returned : Bool}
    → Reaches names with_body es last s returned
    → s ≡ after names last (after_events with_body es new_shared_state)
Reaches-state begin = refl
Reaches-state {with_body} (called {es} e t) =
    ap (on_event with_body e) (Reaches-state t)
    ∙ sym (after_events-append with_body es e new_shared_state)
Reaches-state {names} (ended r t) = ap (finish_callback names r) (Reaches-state t)
Reaches-state (woke t) = Reaches-state t

on_event-complete :
    (with_body : Bool) (e : Event) (s : MetaRequestState)
    → (on_event with_body e s).complete ≡ s.complete
unfolding on_event headers_callback body_callback progress_callback
on_event-complete with_body (headers_came hs status) s = refl
on_event-complete true (body_came bytes) s = refl
on_event-complete false (body_came bytes) s = refl
on_event-complete with_body (progressed n) s = refl

after_events-complete :
    (with_body : Bool) (es : List Event) (s : MetaRequestState)
    → (after_events with_body es s).complete ≡ s.complete
after_events-complete with_body [] s = refl
after_events-complete with_body (e ∷ es) s =
    after_events-complete with_body es (on_event with_body e s) ∙ on_event-complete with_body e s

abbrev is_last : Option MetaRequestResult → Bool
is_last none = false
is_last (some r) = true

after-complete :
    (names : ChecksumNames) (last : Option MetaRequestResult) (with_body : Bool) (es : List Event)
    → (after names last (after_events with_body es new_shared_state)).complete ≡ is_last last
unfolding finish_callback new_shared_state
after-complete names none with_body es = after_events-complete with_body es _
after-complete names (some r) with_body es = refl

-- The loop of the wait, run over the callbacks, ends in the state that all callbacks leave.
wait_for_completion-after :
    (names : ChecksumNames) (with_body : Bool) (es : List Event) (r : MetaRequestResult)
    (s : MetaRequestState)
    → s.complete ≡ false
    → wait_for_completion names with_body es r s
      ≡ finish_callback names r (after_events with_body es s)
unfolding wait_for_completion
wait_for_completion-after names with_body [] r s e = refl
wait_for_completion-after names with_body (x ∷ es) r s e =
    if-false s _ e
    ∙ wait_for_completion-after names with_body es r (on_event with_body x s)
        (on_event-complete with_body x s ∙ e)

Reaches-returned :
    {names : ChecksumNames} {with_body : Bool} {es : List Event} {last : Option MetaRequestResult}
    {s : MetaRequestState} {returned : Bool}
    → Reaches names with_body es last s returned
    → returned ≡ true
    → s.complete ≡ true
unfolding finish_callback
Reaches-returned begin e = cc
Reaches-returned (called x t) e = on_event-complete _ x _ ∙ Reaches-returned t e
Reaches-returned (ended r t) e = refl
Reaches-returned (woke t) e = e

told-after :
    (names : ChecksumNames) (with_body : Bool) (es : List Event) (last : Option MetaRequestResult)
    → is_last last ≡ true
    → (r : MetaRequestResult) × (last ≡ some r)
      × (extract_result with_body (after names last (after_events with_body es new_shared_state))
          ≡ told names with_body es r)
unfolding new_shared_state
told-after names with_body es none e = cc
told-after names with_body es (some r) e = (
  r,
  refl,
  ap (extract_result with_body) (sym (wait_for_completion-after names with_body es r _ refl))
      ∙ extract_result-told names with_body es r,
)

-- In every order of the callbacks and of the waiting thread, which may wake up at any time: `complete` is
-- set exactly when the last callback has come, so that the thread returns when it wakes up then and not
-- before; and once it has returned, the last callback has come, and extract_result gives what the
-- callbacks told.
pub Reaches-told :
    {names : ChecksumNames} {with_body : Bool} {es : List Event} {last : Option MetaRequestResult}
    {s : MetaRequestState} {returned : Bool}
    → Reaches names with_body es last s returned
    → (s.complete ≡ is_last last)
      × (returned ≡ true
          → (r : MetaRequestResult) × (last ≡ some r)
            × (extract_result with_body s ≡ told names with_body es r))
Reaches-told {names} {with_body} {es} {last} {s} t = (
  is_complete,
  λ e.
      rw (Reaches-state t)
        (told-after names with_body es last (sym is_complete ∙ Reaches-returned t e)),
)
  where
    is_complete : s.complete ≡ is_last last
    is_complete = ap (λ x. x.complete) (Reaches-state t) ∙ after-complete names last with_body es
