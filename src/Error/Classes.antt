-- ===== src/Error/Classes.antt =====
-- The exception classes of ext/aws_crt/src/error.rs by the prefix of the CRT error's name.
use aws_crt.Prelude.{
  Bool, List, codes, false, if◌then◌else◌, refl, same_bytes, starts_with, true, ℕ, ◌++◌, ◌||◌, ◌≡◌,
}
use aws_crt.Error.{classify_error, connection_error, error, proxy_error, timeout_error, tls_error}

-- Every name that begins with one of the five prefixes becomes the class that goes with the prefix:
-- `AWS_IO_TLS_` TlsError, `AWS_IO_DNS_` ConnectionError, `AWS_ERROR_HTTP_PROXY_` ProxyError, and
-- `AWS_IO_SOCKET_` ConnectionError, save for `AWS_IO_SOCKET_TIMEOUT` itself, which becomes TimeoutError.
classify_error-prefix :
    (rest : List ℕ)
    → (classify_error (codes "AWS_IO_TLS_" ++ rest) ≡ tls_error)
      × (classify_error (codes "AWS_IO_DNS_" ++ rest) ≡ connection_error)
      × (classify_error (codes "AWS_ERROR_HTTP_PROXY_" ++ rest) ≡ proxy_error)
      × (classify_error (codes "AWS_IO_SOCKET_" ++ rest)
          ≡ (if same_bytes rest (codes "TIMEOUT") then timeout_error else connection_error))
unfolding classify_error codes same_bytes
classify_error-prefix rest = (refl, refl, refl, refl)

-- No name but `AWS_IO_SOCKET_TIMEOUT` becomes a TimeoutError.
classify_error-timeout :
    (name : List ℕ)
    → classify_error name ≡ timeout_error
    → same_bytes name (codes "AWS_IO_SOCKET_TIMEOUT") ≡ true
unfolding classify_error
classify_error-timeout name e =
    go (starts_with name (codes "AWS_IO_TLS_") || same_bytes name (codes "AWS_IO_TLS_CTX_ERROR"))
      (starts_with name (codes "AWS_IO_DNS_")) (same_bytes name (codes "AWS_IO_SOCKET_TIMEOUT"))
      (starts_with name (codes "AWS_IO_SOCKET_")) (starts_with name (codes "AWS_ERROR_HTTP_PROXY_"))
      e
  where
    go :
        (tls dns timeout socket proxy : Bool)
        → (if tls
            then tls_error
            else if dns
            then connection_error
            else if timeout
            then timeout_error
            else if socket
            then connection_error
            else if proxy
            then proxy_error
            else error)
          ≡ timeout_error
        → timeout ≡ true
    go true dns timeout socket proxy e = absurd cc
    go false true timeout socket proxy e = absurd cc
    go false false true socket proxy e = refl
    go false false false true proxy e = absurd cc
    go false false false false true e = absurd cc
    go false false false false false e = absurd cc
