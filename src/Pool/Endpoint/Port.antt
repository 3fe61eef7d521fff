-- ===== src/Pool/Endpoint/Port.antt =====
-- Which endpoints parse_endpoint of ext/aws_crt/src/pool.rs refuses for their port.
use aws_crt.Prelude.{
  Bool, Bool-cases, List, Option, [], arith, false, inl, inr, none, refl, some, ℕ, ◌++◌, ◌==◌, ◌^◌,
  ◌||◌, ◌∷◌, ◌≡◌, ◌↔◌, ap,
}
use aws_crt.Http.Callbacks.{parse_unsigned}
use aws_crt.Pool.Endpoint.{
  Endpoint, Scheme, check_host, default_port, invalid_port, or_here, parse_endpoint, parse_host,
  rejected, rsplit_once, trim_end_slashes,
}
use aws_crt.Pool.Endpoint.Parsed.{parse_endpoint-prefix, prefix, rsplit_once-last}

abbrev pub has_colon : List ℕ → Bool
has_colon [] = false
has_colon (c ∷ s) = c == 58 || has_colon s

-- What stands behind the last colon is no u32.
abbrev pub BadPort : List ℕ → Type 0
BadPort rest =
    (host : List ℕ) × (port : List ℕ) × (rest ≡ host ++ (58 ∷ port))
    × (has_colon port ≡ false)
    × (parse_unsigned (2 ^ 32) port ≡ none)

rsplit_once-no_colon : (s : List ℕ) → has_colon s ≡ false → rsplit_once 58 s ≡ none
unfolding rsplit_once
rsplit_once-no_colon [] e = refl
rsplit_once-no_colon (c ∷ s) e =
    let other : (c == 58) ≡ false = ground arith in
    let rest : has_colon s ≡ false = ground arith in rw (rsplit_once-no_colon s rest, other) refl

-- The two parts that rsplit_once gives.
abbrev Splits : List ℕ → Option (List ℕ × List ℕ) → Type 0
Splits s none = has_colon s ≡ false
Splits s (some (host, port)) = (s ≡ host ++ (58 ∷ port)) × (has_colon port ≡ false)

or_here-Splits :
    (c : ℕ) (s : List ℕ) (o : Option (List ℕ × List ℕ))
    → Splits s o
    → Splits (c ∷ s) (or_here 58 c s o)
or_here-Splits c s none h = elim (Bool-cases (c == 58)) [
  | inl e ↦ let same : c ≡ 58 = ground arith in rw e (ap (λ d. d ∷ s) same, h)
  | inr e ↦ rw e (rw (e, h) refl)
]
or_here-Splits c s (some (host, port)) h = (ap (λ l. c ∷ l) (h.0), h.1)

rsplit_once-Splits : (s : List ℕ) → Splits s (rsplit_once 58 s)
unfolding rsplit_once
rsplit_once-Splits [] = refl
rsplit_once-Splits (c ∷ s) = or_here-Splits c s (rsplit_once 58 s) (rsplit_once-Splits s)

check_host-port :
    (scheme : Scheme) (port : ℕ) (host : List ℕ)
    → check_host scheme port host ≡ rejected invalid_port
    → ⊥
check_host-port scheme port [] e = cc
check_host-port scheme port (c ∷ s) e = cc

abbrev with_port : Scheme → List ℕ → Option ℕ → Endpoint
with_port scheme host o = elim o [
  | some port ↦ check_host scheme port (trim_end_slashes host)
  | none ↦ rejected invalid_port
]

with_port-none :
    (scheme : Scheme) (host : List ℕ) (o : Option ℕ)
    → with_port scheme host o ≡ rejected invalid_port
    → o ≡ none
with_port-none scheme host none e = refl
with_port-none scheme host (some port) e =
    absurd (check_host-port scheme port (trim_end_slashes host) e)

parse_host-BadPort :
    (scheme : Scheme) (rest : List ℕ)
    → parse_host scheme rest ≡ rejected invalid_port
    → BadPort rest
unfolding parse_host
parse_host-BadPort scheme rest = go (rsplit_once 58 rest) (rsplit_once-Splits rest)
  where
    go :
        (o : Option (List ℕ × List ℕ))
        → Splits rest o
        → elim o [
          | none ↦ check_host scheme (default_port scheme) (trim_end_slashes rest)
          | some (h, p) ↦ elim (parse_unsigned (2 ^ 32) p) [
            | some port ↦ check_host scheme port (trim_end_slashes h)
            | none ↦ rejected invalid_port
          ]
        ]
          ≡ rejected invalid_port
        → BadPort rest
    go none h e = absurd (check_host-port scheme (default_port scheme) (trim_end_slashes rest) e)
    go (some (host, port)) h e =
        (host, port, h.0, h.1, with_port-none scheme host (parse_unsigned (2 ^ 32) port) e)

BadPort-parse_host :
    (scheme : Scheme) (rest : List ℕ)
    → BadPort rest
    → parse_host scheme rest ≡ rejected invalid_port
unfolding parse_host
BadPort-parse_host scheme rest (host, port, e, n, p) =
    rw (e, parse_host, rsplit_once-last host port (rsplit_once-no_colon port n), p) refl

-- An endpoint of one of the two schemes is refused for its port exactly where its text has a colon behind
-- the scheme, and what stands behind the last one is no u32.
pub parse_endpoint-invalid_port :
    (scheme : Scheme) (rest : List ℕ)
    → (parse_endpoint (prefix scheme ++ rest) ≡ rejected invalid_port) ↔ BadPort rest
parse_endpoint-invalid_port scheme rest =
    rw (parse_endpoint-prefix scheme rest)
      (parse_host-BadPort scheme rest, BadPort-parse_host scheme rest)
