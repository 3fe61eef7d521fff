-- ===== src/Pool/Endpoint/Parsed.antt =====
-- What parse_endpoint of ext/aws_crt/src/pool.rs reads from an endpoint that is put together from its
-- parts, and what its parts satisfy.
use aws_crt.Prelude.{
  Bool, Bool-cases, List, [], arith, codes, false, if-false, if-true, inl, inr, leb, ltb, none,
  refl, same_bytes, some, sym, true, ℕ, ◌&&◌, ◌*◌, ◌++◌, ◌+◌, ◌-◌, ◌==◌, ◌^◌, ◌∙◌, ◌∷◌, ◌≡◌,
}
use aws_crt.Http.Callbacks.{parse_digits, parse_unsigned, to_ascii_lowercase}
use aws_crt.Pool.Endpoint.{
  Scheme, check_host, default_port, endpoint, http, https, invalid_port, or_here, parse_endpoint,
  parse_host, read_scheme, rejected, rsplit_once, trim_end_slashes,
}

-- A digit or a plus sign is no colon, so that a number that was read holds none.
parse_digits-no-colon :
    (bound n : ℕ) (ds : List ℕ) {m : ℕ}
    → parse_digits bound n ds ≡ some m
    → rsplit_once 58 ds ≡ none
unfolding parse_digits rsplit_once
parse_digits-no-colon bound n [] e = refl
parse_digits-no-colon bound n (d ∷ ds) e =
    elim (Bool-cases (leb 48 d && leb d 57 && ltb (10 * n + (d - 48)) bound)) [
      | inl t ↦
          let ih = parse_digits-no-colon bound (10 * n + (d - 48)) ds (sym (if-true _ _ t) ∙ e) in
          let colon : (d == 58) ≡ false = ground arith in rw (ih, colon) refl
      | inr t ↦ absurd (none-some (sym (if-false _ _ t) ∙ e))
    ]
  where
    none-some : {m : ℕ} → none ≡ some m → ⊥
    none-some e = cc

parse_unsigned-no-colon :
    (bound : ℕ) (ds : List ℕ) {m : ℕ} → parse_unsigned bound ds ≡ some m → rsplit_once 58 ds ≡ none
unfolding parse_unsigned rsplit_once
parse_unsigned-no-colon bound [] e = absurd (none-some e)
  where
    none-some : {m : ℕ} → none ≡ some m → ⊥
    none-some e = cc
parse_unsigned-no-colon bound (d ∷ []) e = elim (Bool-cases (d == 43)) [
  | inl t ↦ absurd (none-some (sym (if-true _ _ t) ∙ e))
  | inr t ↦ parse_digits-no-colon bound 0 (d ∷ []) (sym (if-false _ _ t) ∙ e)
]
  where
    none-some : {m : ℕ} → none ≡ some m → ⊥
    none-some e = cc
parse_unsigned-no-colon bound (d ∷ c ∷ ds) e = elim (Bool-cases (d == 43)) [
  | inl t ↦ plus t (parse_digits-no-colon bound 0 (c ∷ ds) (sym (if-true _ _ t) ∙ e))
  | inr t ↦ parse_digits-no-colon bound 0 (d ∷ c ∷ ds) (sym (if-false _ _ t) ∙ e)
]
  where
    plus :
        (d == 43) ≡ true
        → rsplit_once 58 (c ∷ ds) ≡ none
        → or_here 58 d (c ∷ ds) (rsplit_once 58 (c ∷ ds)) ≡ none
    plus t h = let colon : (d == 58) ≡ false = ground arith in rw (h, colon) refl

pub rsplit_once-last :
    (host port : List ℕ)
    → rsplit_once 58 port ≡ none
    → rsplit_once 58 (host ++ (58 ∷ port)) ≡ some (host, port)
unfolding rsplit_once
rsplit_once-last [] port h = rw h refl
rsplit_once-last (c ∷ host) port h = rw (rsplit_once-last host port h) refl

-- An endpoint's text in front of its host.
abbrev pub prefix : Scheme → List ℕ
prefix http = codes "http://"
prefix https = codes "https://"

pub parse_endpoint-prefix :
    (scheme : Scheme) (rest : List ℕ)
    → parse_endpoint (prefix scheme ++ rest) ≡ parse_host scheme rest
unfolding parse_endpoint codes read_scheme same_bytes to_ascii_lowercase
parse_endpoint-prefix http rest = refl
parse_endpoint-prefix https rest = refl

abbrev is_nonempty : List ℕ → Bool
is_nonempty [] = false
is_nonempty (c ∷ s) = true

check_host_lem :
    (scheme : Scheme) (port : ℕ) (host : List ℕ)
    → is_nonempty host ≡ true
    → check_host scheme port host ≡ endpoint scheme host port
check_host_lem scheme port [] e = cc
check_host_lem scheme port (c ∷ s) e = refl

-- An endpoint with a port: for a host that is not empty and does not end with a slash, and any text
-- that reads as a u32, it is read as these three parts. The host may hold colons itself, as an IPv6
-- address does.
pub parse_endpoint-port :
    (scheme : Scheme) (host ds : List ℕ) (port : ℕ)
    → is_nonempty host ≡ true
    → trim_end_slashes host ≡ host
    → parse_unsigned (2 ^ 32) ds ≡ some port
    → parse_endpoint (prefix scheme ++ (host ++ (58 ∷ ds))) ≡ endpoint scheme host port
unfolding parse_host
parse_endpoint-port scheme host ds port n t p =
    parse_endpoint-prefix scheme (host ++ (58 ∷ ds))
    ∙ rw (parse_host, rsplit_once-last host ds (parse_unsigned-no-colon (2 ^ 32) ds p), p, t)
        (check_host_lem scheme port host n)

-- An endpoint without a port: a host without a colon is read with the scheme's own port.
parse_endpoint-default :
    (scheme : Scheme) (host : List ℕ)
    → is_nonempty host ≡ true
    → trim_end_slashes host ≡ host
    → rsplit_once 58 host ≡ none
    → parse_endpoint (prefix scheme ++ host) ≡ endpoint scheme host (default_port scheme)
unfolding parse_host
parse_endpoint-default scheme host n t c =
    parse_endpoint-prefix scheme host
    ∙ rw (parse_host, c, t) (check_host_lem scheme (default_port scheme) host n)

-- A host with a colon and no port, such as an IPv6 address by itself, is refused: what stands behind
-- its last colon is taken for the port.
parse_endpoint-colon :
    (scheme : Scheme) (host behind : List ℕ)
    → rsplit_once 58 behind ≡ none
    → parse_unsigned (2 ^ 32) behind ≡ none
    → parse_endpoint (prefix scheme ++ (host ++ (58 ∷ behind))) ≡ rejected invalid_port
unfolding parse_host
parse_endpoint-colon scheme host behind c p =
    parse_endpoint-prefix scheme (host ++ (58 ∷ behind))
    ∙ rw (parse_host, rsplit_once-last host behind c, p) refl
