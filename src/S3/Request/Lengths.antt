-- ===== src/S3/Request/Lengths.antt =====
-- The Content-Length header that put_object of ext/aws_crt/src/s3_request.rs writes, and its reading by
-- ext/aws_crt/src/http.rs.
use aws_crt.Prelude.{List, [], arith, codes, false, refl, some, ℕ, ◌<◌, ◌^◌, ◌∷◌, ◌≡◌}
use aws_crt.Http.Callbacks.{eq_ignore_ascii_case, reservation, to_ascii_lowercase}
use aws_crt.Http.Callbacks.Numbers.{parse_unsigned-digits}
use aws_crt.Error.{digits}
use aws_crt.S3.Options.{content_length_header}

-- For a length below 2 ^ 64, put_object adds one header, which http.rs reads as a Content-Length with the
-- same number.
content_length_header-reservation :
    (n : ℕ)
    → n < 2 ^ 64
    → (text : List ℕ) × (content_length_header (some n) ≡ (codes "Content-Length", text) ∷ [])
      × (reservation false (codes "Content-Length", text) ≡ some n)
unfolding content_length_header reservation eq_ignore_ascii_case to_ascii_lowercase codes
content_length_header-reservation n h =
    (digits 20 n [], refl, parse_unsigned-digits (2 ^ 64) 19 n (omega arith) h)
