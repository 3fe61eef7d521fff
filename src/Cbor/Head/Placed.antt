-- ===== src/Cbor/Head/Placed.antt =====
-- A head of ext/aws_crt/src/cbor.rs wherever it stands in a message.
use aws_crt.Prelude.{
  List, ap, append_assoc, arith, length, length-append, ℕ, ◌*◌, ◌++◌, ◌+◌, ◌<◌, ◌^◌, ◌≡◌,
}
use aws_crt.Cbor.Result.{Result, ok, ◌>>=◌}
use aws_crt.Cbor.Encode.{write_head}
use aws_crt.Cbor.Head.{dec_read_count, dec_read_info}
use aws_crt.Cbor.Head.Position.{At, At-after, At-next, At-start}
use aws_crt.Cbor.Head.RoundTrip.{dec_read_count-At, dec_read_info-head, head, write_head-head}

-- A major type, its count, and the position behind both.
abbrev pub read_head : List ℕ → ℕ → Result (ℕ × ℕ × ℕ)
read_head bytes p = do
  ((major, ai), p₁) ← dec_read_info bytes p
  (n, p₂) ← dec_read_count bytes p₁ ai
  ok (major, n, p₂)

read_head-At :
    {bytes : List ℕ} {p : ℕ} (m v : ℕ) (rest : List ℕ)
    → m < 8
    → v < 2 ^ 64
    → At bytes p (head m v ++ rest)
    → read_head bytes p ≡ ok (m, v, p + length (head m v))
read_head-At m v rest hm hv a =
    rw (dec_read_info-head m v rest hm a, dec_read_count-At v rest hv (At-next _ _ a))
      (ap (λ q. ok (m, v, q)) (omega arith))

-- In a message below 2 ^ 64 bytes, what write_head wrote behind any bytes and before any others is
-- read back: the major type, the count, and the position behind the head.
pub read_head-write_head :
    (buf : List ℕ) (m v : ℕ) (rest : List ℕ)
    → m < 8
    → v < 2 ^ 64
    → length (write_head buf (m * 32) v ++ rest) < 2 ^ 64
    → read_head (write_head buf (m * 32) v ++ rest) (length buf)
      ≡ ok (m, v, length (write_head buf (m * 32) v))
read_head-write_head buf m v rest hm hv small =
    let whole : write_head buf (m * 32) v ++ rest ≡ buf ++ (head m v ++ rest) =
      rw (write_head-head buf m v hm hv) (append_assoc buf (head m v) rest) in
    let zero_first : 0 + length buf ≡ length buf = omega arith in
    let bytes = buf ++ (head m v ++ rest) in
    let start : At bytes 0 bytes = At-start bytes (rw whole at small) in
    rw whole (
      rw (write_head-head buf m v hm hv, length-append buf (head m v))
        (rw zero_first at (read_head-At m v rest hm hv (At-after buf (head m v ++ rest) start))))
