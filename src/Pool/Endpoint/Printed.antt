-- ===== src/Pool/Endpoint/Printed.antt =====
-- An endpoint that parse_endpoint of ext/aws_crt/src/pool.rs read, written out with its port.
use aws_crt.Prelude.{List, [], arith, refl, subst, ℕ, ◌++◌, ◌^◌, ◌∷◌, ◌≡◌}
use aws_crt.Http.Callbacks.Numbers.{parse_unsigned-digits}
use aws_crt.Error.{digits}
use aws_crt.Pool.Endpoint.{Endpoint, Scheme, endpoint, parse_endpoint, rejected}
use aws_crt.Pool.Endpoint.Bounds.{Accepted, accepted, parse_endpoint-Accepted, refused}
use aws_crt.Pool.Endpoint.Parsed.{parse_endpoint-port, prefix}

-- scheme://host:port
abbrev pub written : Endpoint → List ℕ
written (rejected e) = []
written (endpoint scheme host port) = prefix scheme ++ (host ++ (58 ∷ digits 10 port []))

abbrev Same : Endpoint → Type 0
Same (rejected e) = Unit {0}
Same (endpoint scheme host port) =
    parse_endpoint (written (endpoint scheme host port)) ≡ endpoint scheme host port

Accepted-Same : {e : Endpoint} → Accepted e → Same e
Accepted-Same (accepted {scheme} {c} {port} {host} t h) =
    parse_endpoint-port scheme (c ∷ host) (digits 10 port []) port refl t
      (parse_unsigned-digits (2 ^ 32) 9 port (omega arith) h)
Accepted-Same refused = tt

-- An endpoint that was read of whatever text is read again from its own scheme, host and port, written
-- out in decimal digits.
pub parse_endpoint-written :
    (text : List ℕ) {scheme : Scheme} {host : List ℕ} {port : ℕ}
    → parse_endpoint text ≡ endpoint scheme host port
    → parse_endpoint (written (endpoint scheme host port)) ≡ endpoint scheme host port
parse_endpoint-written text e = subst Same e (Accepted-Same (parse_endpoint-Accepted text))
