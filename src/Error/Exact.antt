-- ===== src/Error/Exact.antt =====
-- Which names of CRT errors belong to each exception class of ext/aws_crt/src/error.rs.
use aws_crt.Prelude.{
  Bool, List, Bool-cases, [], codes, false, if◌then◌else◌, inl, inr, not, refl, same_bytes,
  starts_with, subst, arith, true, ℕ, ◌&&◌, ◌==◌, ◌||◌, ◌∷◌, ◌≡◌, ◌↔◌,
}
use aws_crt.Error.{
  ExceptionClass, classify_error, connection_error, error, proxy_error, timeout_error, tls_error,
}

-- What the prefixes of a name say of its class, without an order between them.
abbrev pub belongs : ExceptionClass → List ℕ → Bool
belongs tls_error name = starts_with name (codes "AWS_IO_TLS_")
belongs timeout_error name = same_bytes name (codes "AWS_IO_SOCKET_TIMEOUT")
belongs connection_error name =
    starts_with name (codes "AWS_IO_DNS_")
    || starts_with name (codes "AWS_IO_SOCKET_")
      && not (same_bytes name (codes "AWS_IO_SOCKET_TIMEOUT"))
belongs proxy_error name = starts_with name (codes "AWS_ERROR_HTTP_PROXY_")
belongs error name = not (
    starts_with name (codes "AWS_IO_TLS_")
    || starts_with name (codes "AWS_IO_DNS_")
    || starts_with name (codes "AWS_IO_SOCKET_")
    || starts_with name (codes "AWS_ERROR_HTTP_PROXY_"))

-- Two texts differ at a place that both have.
abbrev clash : List ℕ → List ℕ → Bool
clash [] q = false
clash (a ∷ p) [] = false
clash (a ∷ p) (b ∷ q) = not (a == b) || clash p q

starts_with-clash :
    (name p q : List ℕ) → clash p q ≡ true → starts_with name p ≡ true → starts_with name q ≡ false
starts_with-clash name [] q h s = absurd cc
starts_with-clash name (a ∷ p) [] h s = absurd cc
starts_with-clash [] (a ∷ p) (b ∷ q) h s = refl
starts_with-clash (c ∷ name) (a ∷ p) (b ∷ q) h s = elim (Bool-cases (clash p q)) [
  | inl e ↦ grind (arith, starts_with-clash name p q e)
  | inr e ↦ grind arith
]

starts_with-same_bytes :
    (name text p : List ℕ)
    → same_bytes name text ≡ true
    → starts_with text p ≡ true
    → starts_with name p ≡ true
unfolding same_bytes
starts_with-same_bytes name text [] s h = refl
starts_with-same_bytes name [] (d ∷ p) s h = absurd cc
starts_with-same_bytes [] (c ∷ text) (d ∷ p) s h = absurd cc
starts_with-same_bytes (a ∷ name) (c ∷ text) (d ∷ p) s h =
    grind (arith, starts_with-same_bytes name text p)

-- The tests of classify_error and of belongs by their answers.
abbrev chosen : (tls ctx dns timeout socket proxy : Bool) → ExceptionClass
chosen tls ctx dns timeout socket proxy =
    if tls || ctx
    then tls_error
    else if dns
    then connection_error
    else if timeout
    then timeout_error
    else if socket
    then connection_error
    else if proxy
    then proxy_error
    else error

abbrev allowed : ExceptionClass → (tls dns timeout socket proxy : Bool) → Bool
allowed tls_error tls dns timeout socket proxy = tls
allowed timeout_error tls dns timeout socket proxy = timeout
allowed connection_error tls dns timeout socket proxy = dns || socket && not timeout
allowed proxy_error tls dns timeout socket proxy = proxy
allowed error tls dns timeout socket proxy = not (tls || dns || socket || proxy)

module _ (tls ctx dns timeout socket proxy : Bool) (ctx_tls : ctx ≡ true → tls ≡ true)
    (timeout_socket : timeout ≡ true → socket ≡ true) (tls_dns : tls ≡ true → dns ≡ false)
    (tls_socket : tls ≡ true → socket ≡ false) (tls_proxy : tls ≡ true → proxy ≡ false)
    (dns_socket : dns ≡ true → socket ≡ false) (dns_proxy : dns ≡ true → proxy ≡ false)
    (socket_proxy : socket ≡ true → proxy ≡ false) where
  chosen-allowed :
      allowed (chosen tls ctx dns timeout socket proxy) tls dns timeout socket proxy ≡ true
  chosen-allowed = ground arith

  allowed-chosen :
      (c : ExceptionClass)
      → allowed c tls dns timeout socket proxy ≡ true
      → chosen tls ctx dns timeout socket proxy ≡ c
  allowed-chosen tls_error h = ground arith
  allowed-chosen timeout_error h = ground arith
  allowed-chosen connection_error h = ground arith
  allowed-chosen proxy_error h = ground arith
  allowed-chosen error h = ground arith

  chosen-exactly :
      (c : ExceptionClass)
      → (chosen tls ctx dns timeout socket proxy ≡ c)
        ↔ (allowed c tls dns timeout socket proxy ≡ true)
  chosen-exactly c = (
    λ e. subst (λ d. allowed d tls dns timeout socket proxy ≡ true) e chosen-allowed,
    allowed-chosen c,
  )

belongs_lem :
    (c : ExceptionClass) (name : List ℕ)
    → belongs c name
      ≡ allowed c
          (starts_with name (codes "AWS_IO_TLS_"))
          (starts_with name (codes "AWS_IO_DNS_"))
          (same_bytes name (codes "AWS_IO_SOCKET_TIMEOUT"))
          (starts_with name (codes "AWS_IO_SOCKET_"))
          (starts_with name (codes "AWS_ERROR_HTTP_PROXY_"))
belongs_lem error name = refl
belongs_lem connection_error name = refl
belongs_lem timeout_error name = refl
belongs_lem tls_error name = refl
belongs_lem proxy_error name = refl

-- The class of an error, for each of the five classes and every name: TlsError exactly for the names that
-- begin with AWS_IO_TLS_; TimeoutError exactly for AWS_IO_SOCKET_TIMEOUT; ConnectionError exactly for the
-- other names that begin with AWS_IO_SOCKET_ and for those that begin with AWS_IO_DNS_; ProxyError exactly
-- for those that begin with AWS_ERROR_HTTP_PROXY_; and Error exactly for all others.
pub classify_error-belongs :
    (c : ExceptionClass) (name : List ℕ) → (classify_error name ≡ c) ↔ (belongs c name ≡ true)
unfolding classify_error codes same_bytes
classify_error-belongs c name =
    let apart = starts_with-clash name in
    let tls = codes "AWS_IO_TLS_" in
    let dns = codes "AWS_IO_DNS_" in
    let socket = codes "AWS_IO_SOCKET_" in
    let proxy = codes "AWS_ERROR_HTTP_PROXY_" in
    let within = starts_with-same_bytes name in
    rw (belongs_lem c name) (
      chosen-exactly _ _ _ _ _ _ (λ h. within (codes "AWS_IO_TLS_CTX_ERROR") tls h refl)
        (λ h. within (codes "AWS_IO_SOCKET_TIMEOUT") socket h refl) (apart tls dns refl)
        (apart tls socket refl) (apart tls proxy refl) (apart dns socket refl)
        (apart dns proxy refl) (apart socket proxy refl) c)
