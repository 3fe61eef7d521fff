-- ===== src/Cbor/RoundTrip/Items.antt =====
-- Data items by their heads: the dispatch of decode_value, counts and counted bytes.
use aws_crt.Prelude.{
  ℕ, suc, ◌+◌, ◌*◌, ◌/◌, ◌%◌, ◌^◌, ◌<◌, ◌≡◌, ap, ◌∙◌, List, ◌∷◌, ◌++◌, arith, length, length-append,
  gt→leb, append_assoc, low_five,
}
use aws_crt.Cbor.Result.{ok}
use aws_crt.Cbor.Calls.{Calls}
use aws_crt.Cbor.Head.{dec_read_count}
use aws_crt.Cbor.Head.Position.{At, At-after, At-next, At-get, dec_take-At}
use aws_crt.Cbor.Head.RoundTrip.{
  head, head_info, head_tail, head_info_bound, dec_read_info-head, dec_read_count-At,
}
use aws_crt.Cbor.Read.{read_chunk}
use aws_crt.Cbor.Decode.{
  decode_value, decode_item, decode_major, decode_tag_raw, decode_tagged, decode_tag_raw,
  decode_tagged,
}

-- The count of a head, read behind its first byte.
pub dec_read_count-head :
    {bytes : List ℕ} {p : ℕ} (m v : ℕ) (rest : List ℕ)
    → v < 2 ^ 64
    → At bytes p (head m v ++ rest)
    → dec_read_count bytes (p + 1) (head_info v) ≡ ok (v, p + length (head m v))
dec_read_count-head {bytes} {p} m v rest h a =
    dec_read_count-At v rest h (At-next _ _ a) ∙ ap (λ (q : ℕ). ok (v, q)) (omega arith)

-- A head and as many bytes as it counts.
pub read_chunk-head :
    {bytes : List ℕ} {p : ℕ} (m : ℕ) (xs rest : List ℕ)
    → m < 8
    → length xs < 2 ^ 64
    → At bytes p ((head m (length xs) ++ xs) ++ rest)
    → read_chunk bytes p ≡ ok (xs, p + length (head m (length xs) ++ xs))
unfolding read_chunk
read_chunk-head {bytes} {p} m xs rest hm h a =
    let a' : At bytes p (head m (length xs) ++ (xs ++ rest)) = rw append_assoc at a in
    rw (dec_read_info-head m (length xs) (xs ++ rest) hm a') (
      rw (dec_read_count-head m (length xs) (xs ++ rest) h a') (
        dec_take-At xs rest (At-after (head m (length xs)) (xs ++ rest) a')
        ∙ ap (λ (q : ℕ). ok (xs, q)) (omega (arith, length-append (head m (length xs)) xs))))

module _ {Time Decimal : Type 0} (calls : Calls Time Decimal) where
  -- decode_value goes by the first byte.
  pub decode_value-byte :
      {bytes : List ℕ} {p : ℕ} (f b : ℕ) (rest : List ℕ)
      → b < 256
      → At bytes p (b ∷ rest)
      → decode_value calls (suc f) bytes p
        ≡ decode_major calls bytes (λ q. decode_value calls f bytes q) p (b / 2 ^ 5) (b % 32)
  unfolding decode_value decode_item
  decode_value-byte {bytes} {p} f b rest h a =
      rw (gt→leb (length bytes) p (omega (arith, a.inside)))
        (rw (At-get b rest a) (rw (low_five b h)))

  pub decode_value-head :
      {bytes : List ℕ} {p : ℕ} (f m v : ℕ) (rest : List ℕ)
      → m < 8
      → At bytes p (head m v ++ rest)
      → decode_value calls (suc f) bytes p
        ≡ decode_major calls bytes (λ q. decode_value calls f bytes q) p m (head_info v)
  decode_value-head f m v rest h a =
      let low = head_info_bound v in
      let top : (m * 32 + head_info v) / 2 ^ 5 ≡ m = omega (arith, low) in
      let bottom : (m * 32 + head_info v) % 32 ≡ head_info v = omega (arith, low) in
      decode_value-byte f (m * 32 + head_info v) (head_tail v ++ rest) (omega (arith, low)) a
      ∙ rw (top, bottom)

  pub decode_value-tag :
      {bytes : List ℕ} {p : ℕ} (f tag : ℕ) (rest : List ℕ)
      → tag < 2 ^ 64
      → At bytes p (head 6 tag ++ rest)
      → decode_value calls (suc f) bytes p
        ≡ decode_tagged calls bytes
            (λ q. decode_value calls f bytes q)
            tag
            (p + length (head 6 tag))
  unfolding decode_major decode_tag_raw
  decode_value-tag f tag rest h a =
      decode_value-head f 6 tag rest (omega arith) a
      ∙ rw (dec_read_info-head 6 tag rest (omega arith) a) (rw (dec_read_count-head 6 tag rest h a))
