-- ===== src/Http/Trace/Delivery.antt =====
-- What the caller of ext/aws_crt/src/http.rs is given, against what arrived.
use aws_crt.Prelude.{
  Bool, Bool-cases, List, [], ap, append-nil, append_assoc, arith, false, inl, inr, refl, sym, true,
  ℕ, ◌++◌, ◌∙◌, ◌∷◌, ◌≡◌, ◌⊎◌,
}
use aws_crt.Prelude.Int.{negsuc, pos, ℤ}
use aws_crt.Http.State.{Header, RequestState, is_positive, is_zero}
use aws_crt.Http.Callbacks.{set_status}
use aws_crt.Http.Callbacks.Headers.{with_headers}
use aws_crt.Http.Run.{Caller, deliver_headers, on_chunk, on_chunks, on_headers, yield_chunks}

abbrev pub concat : List (List ℕ) → List ℕ
concat [] = []
concat (c ∷ cs) = c ++ concat cs

on_chunks-append : (cs ds : List (List ℕ)) → on_chunks (cs ++ ds) ≡ on_chunks cs ++ on_chunks ds
on_chunks-append [] ds = refl
on_chunks-append (c ∷ cs) ds = ap (◌∷◌ (on_chunk c)) (on_chunks-append cs ds)

pub concat-append : (cs : List (List ℕ)) (d : List ℕ) → concat (cs ++ (d ∷ [])) ≡ concat cs ++ d
concat-append [] d = append-nil d
concat-append (c ∷ cs) d = rw (concat-append cs d) (sym (append_assoc c (concat cs) d))

-- Streaming: before the headers were delivered nothing was, and chunks that wait have a status before
-- them; afterwards the caller saw the headers once and then chunks, those and the waiting ones being
-- all that arrived.
pub data Delivery (cs : List (List ℕ)) (s : RequestState) : Caller → Type 0 where
  before :
      {c : Caller}
      → c.headers_delivered ≡ false
      → c.yields ≡ []
      → s.chunks ≡ cs
      → (cs ≡ []) ⊎ (is_positive (s.status_code) ≡ true)
      → Delivery cs s c
  after :
      {c : Caller} (status : ℤ) (block : List Header) (ds : List (List ℕ))
      → c.headers_delivered ≡ true
      → c.yields ≡ on_headers status block ∷ on_chunks ds
      → ds ++ s.chunks ≡ cs
      → Delivery cs s c

-- The other parts of the state do not matter, as long as a positive status stays.
pub frame-Delivery :
    {cs : List (List ℕ)} {s t : RequestState} {c : Caller}
    → t.chunks ≡ s.chunks
    → (is_positive (s.status_code) ≡ true → is_positive (t.status_code) ≡ true)
    → Delivery cs s c
    → Delivery cs t c
frame-Delivery e p (before d y w (inl n)) = before d y (e ∙ w) (inl n)
frame-Delivery e p (before d y w (inr n)) = before d y (e ∙ w) (inr (p n))
frame-Delivery e p (after status block ds d y w) = after status block ds d y (rw e w)

pub positive-nonzero : (n : ℤ) → is_positive n ≡ true → is_zero n ≡ false
positive-nonzero (pos n) e = ground arith
positive-nonzero (negsuc n) e = refl

pub with_headers-Delivery :
    {cs : List (List ℕ)} (status : ℤ) (block : List Header) (s : RequestState) {c : Caller}
    → Delivery cs s c
    → Delivery cs (with_headers status block s) c
unfolding set_status
with_headers-Delivery status block s d = elim (Bool-cases (is_zero (s.status_code))) [
  | inl z ↦
      frame-Delivery (rw z refl) (λ p. absurd (clash (positive-nonzero (s.status_code) p) z)) d
  | inr z ↦ frame-Delivery (rw z refl) (λ p. rw z p) d
]
  where
    clash : {b : Bool} → b ≡ false → b ≡ true → ⊥
    clash e f = cc

pub chunk-Delivery :
    {cs : List (List ℕ)} (bytes : List ℕ) (s : RequestState) {c : Caller}
    → is_positive (s.status_code) ≡ true
    → Delivery cs s c
    → Delivery (cs ++ (bytes ∷ [])) (record s { chunks = s.chunks ++ (bytes ∷ []) }) c
chunk-Delivery bytes s p (before d y w n) = before d y (ap (λ l. l ++ (bytes ∷ [])) w) (inr p)
chunk-Delivery bytes s p (after status block ds d y w) =
    after status block ds d y
      (sym (append_assoc ds (s.chunks) (bytes ∷ [])) ∙ ap (λ l. l ++ (bytes ∷ [])) w)

-- What one round tells the caller.
pub told-Delivery :
    {cs : List (List ℕ)} (s : RequestState) (c : Caller)
    → Delivery cs s c
    → Delivery cs (record s { chunks = [] }) (yield_chunks s (deliver_headers s c))
unfolding yield_chunks deliver_headers
told-Delivery {cs} s c (before d y w n) = elim (Bool-cases (is_positive (s.status_code))) [
  | inl p ↦ rw (d, p) (after (s.status_code) (s.headers) cs refl (rw (y, w) refl) (append-nil cs))
  | inr p ↦
      let e : cs ≡ [] = nothing n p in rw (d, p) (before refl (rw (w, e, y) refl) (sym e) (inl e))
]
  where
    nothing :
        (cs ≡ []) ⊎ (is_positive (s.status_code) ≡ true)
        → is_positive (s.status_code) ≡ false
        → cs ≡ []
    nothing (inl e) p = e
    nothing (inr q) p = cc
told-Delivery {cs} s c (after status block ds d y w) = rw d (
    after status block cs refl (rw (y, sym w, on_chunks-append ds (s.chunks)) refl) (append-nil cs))
