-- ===== src/Error/Tests.antt =====
-- Names of CRT errors in the classes of ext/aws_crt/src/error.rs.
use aws_crt.Prelude.{◌↔◌, codes, refl, true, same_bytes, ◌≡◌}
use aws_crt.Prelude.Int.{pos}
use aws_crt.Error.{classify_error, connection_error, digits, display, display_code, error}
use aws_crt.Error.Exact.{belongs, classify_error-belongs}

classify_error-belongs_example :
    (classify_error (codes "AWS_IO_SOCKET_TIMEOUT") ≡ connection_error)
    ↔ (belongs connection_error (codes "AWS_IO_SOCKET_TIMEOUT") ≡ true)
classify_error-belongs_example =
    classify_error-belongs connection_error (codes "AWS_IO_SOCKET_TIMEOUT")

-- The error of a read timeout is in no class of its own.
read_timeout_class : classify_error (codes "AWS_ERROR_HTTP_RESPONSE_FIRST_BYTE_TIMEOUT") ≡ error
unfolding classify_error codes same_bytes
read_timeout_class = refl

display_example :
    display (record { code = pos 1029; name = codes "AWS_X"; message = codes "m" })
    ≡ codes "AWS_X: m (1029)"
unfolding display display_code digits codes
display_example = refl
