-- ===== src/Pool/Endpoint/Bounds.antt =====
-- What parse_endpoint of ext/aws_crt/src/pool.rs gives for any text.
use aws_crt.Prelude.{
  Bool-cases, List, Option, Option-cases, [], arith, codes, if-false, if-true, inl, inr, leb, ltb,
  none, refl, some, sym, ℕ, ◌&&◌, ◌*◌, ◌+◌, ◌-◌, ◌<◌, ◌==◌, ◌^◌, ◌∙◌, ◌∷◌, ◌≡◌,
}
use aws_crt.Http.Callbacks.{parse_digits, parse_unsigned}
use aws_crt.Pool.Endpoint.{
  Endpoint, EndpointError, Scheme, check_host, default_port, drop_slash, endpoint, http, https,
  invalid_port, parse_endpoint, parse_host, read_scheme, rejected, rsplit_once, split_once,
  trim_end_slashes,
}

none-some : {A : Type 0} {a : A} → none ≡ some a → ⊥
none-some e = cc

parse_digits_bound :
    (bound n : ℕ) (ds : List ℕ) {m : ℕ} → n < bound → parse_digits bound n ds ≡ some m → m < bound
unfolding parse_digits
parse_digits_bound bound n [] h e = let same : n ≡ _ = some-injective e in omega (arith, same)
  where
    some-injective : {m : ℕ} → some n ≡ some m → n ≡ m
    some-injective e = cc
parse_digits_bound bound n (d ∷ ds) h e =
    elim (Bool-cases (leb 48 d && leb d 57 && ltb (10 * n + (d - 48)) bound)) [
      | inl t ↦
          parse_digits_bound bound (10 * n + (d - 48)) ds (ground arith) (sym (if-true _ _ t) ∙ e)
      | inr t ↦ absurd (none-some (sym (if-false _ _ t) ∙ e))
    ]

parse_unsigned_bound :
    (bound : ℕ) (ds : List ℕ) {m : ℕ} → 0 < bound → parse_unsigned bound ds ≡ some m → m < bound
unfolding parse_unsigned
parse_unsigned_bound bound [] h e = absurd (none-some e)
parse_unsigned_bound bound (d ∷ []) h e = elim (Bool-cases (d == 43)) [
  | inl t ↦ absurd (none-some (sym (if-true _ _ t) ∙ e))
  | inr t ↦ parse_digits_bound bound 0 (d ∷ []) h (sym (if-false _ _ t) ∙ e)
]
parse_unsigned_bound bound (d ∷ c ∷ ds) h e = elim (Bool-cases (d == 43)) [
  | inl t ↦ parse_digits_bound bound 0 (c ∷ ds) h (sym (if-true _ _ t) ∙ e)
  | inr t ↦ parse_digits_bound bound 0 (d ∷ c ∷ ds) h (sym (if-false _ _ t) ∙ e)
]

-- The trimmed text has nothing left to trim.
drop_slash-trimmed :
    (c : ℕ) (t : List ℕ)
    → trim_end_slashes t ≡ t
    → trim_end_slashes (drop_slash c t) ≡ drop_slash c t
unfolding trim_end_slashes
drop_slash-trimmed c [] e = elim (Bool-cases (c == 47)) [
  | inl s ↦ rw s refl
  | inr s ↦ rw s (rw s refl)
]
drop_slash-trimmed c (d ∷ t) e = rw e refl

trim_end_slashes-twice : (s : List ℕ) → trim_end_slashes (trim_end_slashes s) ≡ trim_end_slashes s
unfolding trim_end_slashes
trim_end_slashes-twice [] = refl
trim_end_slashes-twice (c ∷ s) =
    drop_slash-trimmed c (trim_end_slashes s) (trim_end_slashes-twice s)

-- An accepted endpoint has a host without a slash at its end and a port that is a u32.
pub data Accepted : Endpoint → Type 0 where
  accepted :
      {scheme : Scheme} {c port : ℕ} {host : List ℕ}
      → trim_end_slashes (c ∷ host) ≡ c ∷ host
      → port < 2 ^ 32
      → Accepted (endpoint scheme (c ∷ host) port)
  refused : {e : EndpointError} → Accepted (rejected e)

check_host-Accepted :
    (scheme : Scheme) (port : ℕ) (host : List ℕ)
    → trim_end_slashes host ≡ host
    → port < 2 ^ 32
    → Accepted (check_host scheme port host)
check_host-Accepted scheme port [] t h = refused
check_host-Accepted scheme port (c ∷ s) t h = accepted t h

default_port_bound : (scheme : Scheme) → default_port scheme < 2 ^ 32
default_port_bound http = omega arith
default_port_bound https = omega arith

parse_port-Accepted :
    (scheme : Scheme) (h : List ℕ) (o : Option ℕ)
    → ((port : ℕ) → o ≡ some port → port < 2 ^ 32)
    → Accepted (elim o [
      | some port ↦ check_host scheme port (trim_end_slashes h)
      | none ↦ rejected invalid_port
    ])
parse_port-Accepted scheme h none f = refused
parse_port-Accepted scheme h (some port) f =
    check_host-Accepted scheme port (trim_end_slashes h) (trim_end_slashes-twice h) (f port refl)

parse_host-Accepted : (scheme : Scheme) (rest : List ℕ) → Accepted (parse_host scheme rest)
unfolding parse_host
parse_host-Accepted scheme rest = elim (Option-cases (rsplit_once 58 rest)) [
  | inl n ↦
      rw (parse_host, n)
        (check_host-Accepted scheme _ (trim_end_slashes rest) (trim_end_slashes-twice rest)
          (default_port_bound scheme))
  | inr (hp, n) ↦
      rw (parse_host, n)
        (parse_port-Accepted scheme (hp.0) (parse_unsigned (2 ^ 32) (hp.1))
          (λ port e. parse_unsigned_bound (2 ^ 32) (hp.1) (omega arith) e))
]

-- Whatever the text: it is refused with one of the four errors, or it gives a scheme, a host that is
-- not empty and does not end with a slash, and a port below 2 ^ 32.
pub parse_endpoint-Accepted : (text : List ℕ) → Accepted (parse_endpoint text)
unfolding parse_endpoint
parse_endpoint-Accepted text = elim (Option-cases (split_once text (codes "://"))) [
  | inl n ↦ rw (parse_endpoint, n) refused
  | inr (sr, n) ↦ elim (Option-cases (read_scheme (sr.0))) [
    | inl m ↦ rw (parse_endpoint, n, m) refused
    | inr (scheme, m) ↦ rw (parse_endpoint, n, m) (parse_host-Accepted scheme (sr.1))
  ]
]
