-- ===== src/Cbor/RoundTrip/Decimals.antt =====
-- The round trip of a BigDecimal whose mantissa and exponent fit in 64 bits and a sign.
use aws_crt.Prelude.{
  ℕ, ◌+◌, ◌^◌, ◌<◌, ◌≡◌, ap, inr, List, ◌++◌, arith, length, length-append, append_assoc,
}
use aws_crt.Prelude.Int.{ℤ, pos, negsuc, ◌-ℤ◌, ◌*ℤ◌}
use aws_crt.Cbor.Value.{decimal}
use aws_crt.Cbor.Result.{ok}
use aws_crt.Cbor.Calls.{Calls, finite}
use aws_crt.Cbor.Encode.{encode_big_decimal, encode_value, encode_integer, parse_i128}
use aws_crt.Cbor.Head.Position.{At, At-after}
use aws_crt.Cbor.Head.RoundTrip.{head, write_head-head, dec_read_info-head}
use aws_crt.Cbor.Read.{decode_integer_raw}
use aws_crt.Cbor.Decode.{decode_tagged, decode_bigdec_raw}
use aws_crt.Cbor.View.{magnitude}
use aws_crt.Cbor.RoundTrip.Items.{dec_read_count-head}
use aws_crt.Cbor.RoundTrip.Scalars.{Trip, decode_integer_raw-head}
use aws_crt.Cbor.RoundTrip.Bignum.{encode_integer-pos, encode_integer-negsuc}
use aws_crt.Cbor.RoundTrip.Leaves.{tag-Reads}

-- An integer of 64 bits and a sign, as encode_integer writes it.
integer_head : ℤ → List ℕ
integer_head (pos n) = head 0 n
integer_head (negsuc n) = head 1 n

encode_integer-integer_head :
    (buf : List ℕ) (z : ℤ) → magnitude z < 2 ^ 64 → encode_integer buf z ≡ buf ++ integer_head z
unfolding integer_head
encode_integer-integer_head buf (pos n) h = encode_integer-pos buf n h
encode_integer-integer_head buf (negsuc n) h = encode_integer-negsuc buf n h

decode_integer_raw-integer_head :
    {bytes : List ℕ} {p : ℕ} (z : ℤ) (rest : List ℕ)
    → magnitude z < 2 ^ 64
    → At bytes p (integer_head z ++ rest)
    → decode_integer_raw bytes p ≡ ok (z, p + length (integer_head z))
unfolding integer_head
decode_integer_raw-integer_head (pos n) rest h a =
    decode_integer_raw-head 0 n rest (omega arith) h a
decode_integer_raw-integer_head (negsuc n) rest h a =
    decode_integer_raw-head 1 n rest (omega arith) h a

module _ {Time Decimal : Type 0} (calls : Calls Time Decimal) where
  pair-Reads :
      (m x : ℤ) (d : Decimal)
      → magnitude m < 2 ^ 64
      → magnitude x < 2 ^ 64
      → calls.scaled m x ≡ inr d
      → (bytes : List ℕ) (p : ℕ) (rest : List ℕ)
      → At bytes p ((head 4 2 ++ (integer_head x ++ integer_head m)) ++ rest)
      → decode_bigdec_raw calls bytes p
        ≡ ok (decimal d, p + length (head 4 2 ++ (integer_head x ++ integer_head m)))
  unfolding decode_bigdec_raw
  pair-Reads m x d hm hx e bytes p rest a =
      let hx' = integer_head x in
      let hm' = integer_head m in
      let l1 = length-append hx' hm' in
      let a1 : At bytes p (head 4 2 ++ ((hx' ++ hm') ++ rest)) = rw append_assoc at a in
      let a2 : At bytes (p + length (head 4 2)) (hx' ++ (hm' ++ rest)) =
        rw append_assoc at (At-after (head 4 2) _ a1) in
      let a3 = At-after hx' (hm' ++ rest) a2 in
      rw (dec_read_info-head 4 2 _ (omega arith) a1) (
        rw (dec_read_count-head 4 2 _ (omega arith) a1) (
          rw (decode_integer_raw-integer_head x _ hx a2) (
            rw (decode_integer_raw-integer_head m rest hm a3) (
              rw e (
                ap (λ (q : ℕ). ok (decimal d, q))
                  (omega (arith, l1, length-append (head 4 2) (hx' ++ hm'))))))))

  pub decimal-Trip :
      (d d' : Decimal) (sign : ℤ) (digits : List ℕ) (e m x : ℤ)
      → calls.parts d ≡ finite sign digits e
      → pos (parse_i128 digits) *ℤ sign ≡ m
      → e -ℤ pos (length digits) ≡ x
      → magnitude m < 2 ^ 64
      → magnitude x < 2 ^ 64
      → calls.scaled m x ≡ inr d'
      → Trip calls (decimal d) (decimal d')
  unfolding encode_value encode_big_decimal decode_tagged
  decimal-Trip d d' sign digits e m x hd em ex hm hx hs = record {
    written = head 6 4 ++ (head 4 2 ++ (integer_head x ++ integer_head m));
    writes = λ buf. rw hd (
        rw (em, ex)
          (rw (write_head-head buf 6 4 (omega arith) (omega arith)) (
            rw (write_head-head (buf ++ head 6 4) 4 2 (omega arith) (omega arith)) (
              rw (encode_integer-integer_head ((buf ++ head 6 4) ++ head 4 2) x hx) (
                rw
                  (encode_integer-integer_head (((buf ++ head 6 4) ++ head 4 2) ++ integer_head x) m
                    hm)
                  (simp append_assoc))))));
    nonempty = omega arith;
    reads =
        tag-Reads calls 4 (head 4 2 ++ (integer_head x ++ integer_head m)) (decimal d')
          (omega arith) (λ bytes p f rest a hf. pair-Reads m x d' hm hx hs bytes p rest a);
  }
