-- ===== src/Cbor/RoundTrip/Bignum.antt =====
-- Integers of every size: major types 0 and 1 up to 64 bits, tags 2 and 3 above.
use aws_crt.Prelude.{
  ℕ, zero, suc, ◌%◌, ◌^◌, ◌<◌, ◌≡◌, ap, ◌∙◌, ltb, inl, inr, Bool-cases, List, ◌++◌, arith, length,
  length-append, append_assoc, from_be, length-to_be, from_be-to_be, if◌then◌else◌,
}
use aws_crt.Prelude.Int.{ℤ, pos, negsuc}
use aws_crt.Cbor.Value.{int}
use aws_crt.Cbor.Result.{ok, done}
use aws_crt.Cbor.Calls.{Calls}
use aws_crt.Cbor.Float.{bit_length}
use aws_crt.Cbor.Float.Bounds.{bytes_bound}
use aws_crt.Cbor.Encode.{
  encode_integer, encode_value, encode_ruby_bignum, encode_tagged_bytes, magnitude_bytes, is_fixnum,
}
use aws_crt.Cbor.Head.Position.{At, At-after}
use aws_crt.Cbor.Head.RoundTrip.{head, write_head-head}
use aws_crt.Cbor.Read.{decode_bignum_raw}
use aws_crt.Cbor.Decode.{decode_tagged}
use aws_crt.Cbor.View.{magnitude}
use aws_crt.Cbor.RoundTrip.Items.{read_chunk-head, decode_value-tag}
use aws_crt.Cbor.RoundTrip.Scalars.{Reads, Trip, pos-Reads, negsuc-Reads}

-- A byte string, and one under a tag.
abbrev counted : List ℕ → List ℕ
counted bs = head 2 (length bs) ++ bs

tagged_bytes : ℕ → List ℕ → List ℕ
tagged_bytes tag bs = head 6 tag ++ counted bs

encode_tagged_bytes-tagged_bytes :
    (buf : List ℕ) (tag : ℕ) (bs : List ℕ)
    → tag < 2 ^ 64
    → length bs < 2 ^ 64
    → encode_tagged_bytes buf tag bs ≡ buf ++ tagged_bytes tag bs
unfolding encode_tagged_bytes tagged_bytes
encode_tagged_bytes-tagged_bytes buf tag bs ht hb =
    rw (write_head-head buf 6 tag (omega arith) ht)
      (rw (write_head-head _ 2 (length bs) (omega arith) hb) (simp append_assoc))

integer_bytes : ℤ → List ℕ
integer_bytes (pos n) = if ltb n (2 ^ 64) then head 0 n else tagged_bytes 2 (magnitude_bytes n)
integer_bytes (negsuc n) = if ltb n (2 ^ 63) then head 1 n else tagged_bytes 3 (magnitude_bytes n)

integer_bytes-nonempty : (z : ℤ) → 0 < length (integer_bytes z)
unfolding integer_bytes tagged_bytes
integer_bytes-nonempty (pos n) = ground arith
integer_bytes-nonempty (negsuc n) = ground arith

pub encode_integer-pos :
    (buf : List ℕ) (n : ℕ) → n < 2 ^ 64 → encode_integer buf (pos n) ≡ buf ++ head 0 n
unfolding encode_integer
encode_integer-pos buf n h =
    let low : n % 2 ^ 64 ≡ n = omega arith in rw low (write_head-head buf 0 n (omega arith) h)

pub encode_integer-negsuc :
    (buf : List ℕ) (n : ℕ) → n < 2 ^ 64 → encode_integer buf (negsuc n) ≡ buf ++ head 1 n
unfolding encode_integer
encode_integer-negsuc buf n h =
    let low : n % 2 ^ 64 ≡ n = omega arith in rw low (write_head-head buf 1 n (omega arith) h)

length-magnitude_bytes : (n : ℕ) → bit_length n < 2 ^ 64 → length (magnitude_bytes n) < 2 ^ 64
unfolding magnitude_bytes
length-magnitude_bytes n h = rw length-to_be (omega arith)

from_be-magnitude_bytes : (n : ℕ) → from_be (magnitude_bytes n) ≡ n
unfolding magnitude_bytes
from_be-magnitude_bytes n = from_be-to_be _ n (bytes_bound n)

module _ {Time Decimal : Type 0} (calls : Calls Time Decimal) where
  encode_value-integer :
      (buf : List ℕ) (z : ℤ)
      → bit_length (magnitude z) < 2 ^ 64
      → encode_value calls (int z) buf ≡ done (buf ++ integer_bytes z)
  unfolding encode_value encode_ruby_bignum integer_bytes is_fixnum
  encode_value-integer buf (pos n) h = ground (
    arith,
    encode_integer-pos buf n,
    write_head-head buf 0 n,
    encode_tagged_bytes-tagged_bytes buf 2 (magnitude_bytes n),
    length-magnitude_bytes n h,
  )
  encode_value-integer buf (negsuc n) h = ground (
    arith,
    encode_integer-negsuc buf n,
    encode_tagged_bytes-tagged_bytes buf 3 (magnitude_bytes n),
    length-magnitude_bytes n h,
  )

  -- The two bignum tags read as the numbers that the byte string spells.
  bignum-Reads :
      (n : ℕ)
      → bit_length n < 2 ^ 64
      → Reads calls (tagged_bytes 2 (magnitude_bytes n)) (int (pos n))
  unfolding tagged_bytes decode_tagged decode_bignum_raw
  bignum-Reads n h bytes p zero rest a hf = absurd (omega arith)
  bignum-Reads n h bytes p (suc f) rest a hf =
      let a' : At bytes p (head 6 2 ++ (counted (magnitude_bytes n) ++ rest)) =
        rw append_assoc at a in
      decode_value-tag calls f 2 _ (omega arith) a'
      ∙ rw
          (read_chunk-head 2 (magnitude_bytes n) rest (omega arith) (length-magnitude_bytes n h)
            (At-after (head 6 2) _ a'))
          (rw (from_be-magnitude_bytes n) (
            ap (λ (q : ℕ). ok (int (pos n), q))
              (omega (arith, length-append (head 6 2) (counted (magnitude_bytes n))))))

  neg_bignum-Reads :
      (n : ℕ)
      → bit_length n < 2 ^ 64
      → Reads calls (tagged_bytes 3 (magnitude_bytes n)) (int (negsuc n))
  unfolding tagged_bytes decode_tagged decode_bignum_raw
  neg_bignum-Reads n h bytes p zero rest a hf = absurd (omega arith)
  neg_bignum-Reads n h bytes p (suc f) rest a hf =
      let a' : At bytes p (head 6 3 ++ (counted (magnitude_bytes n) ++ rest)) =
        rw append_assoc at a in
      decode_value-tag calls f 3 _ (omega arith) a'
      ∙ rw
          (read_chunk-head 2 (magnitude_bytes n) rest (omega arith) (length-magnitude_bytes n h)
            (At-after (head 6 3) _ a'))
          (rw (from_be-magnitude_bytes n) (
            ap (λ (q : ℕ). ok (int (negsuc n), q))
              (omega (arith, length-append (head 6 3) (counted (magnitude_bytes n))))))

  integer-Reads :
      (z : ℤ) → bit_length (magnitude z) < 2 ^ 64 → Reads calls (integer_bytes z) (int z)
  unfolding integer_bytes
  integer-Reads (pos n) h = elim (Bool-cases (ltb n (2 ^ 64))) [
    | inl e ↦ rw e (pos-Reads calls n (ground arith))
    | inr e ↦ rw e (bignum-Reads n h)
  ]
  integer-Reads (negsuc n) h = elim (Bool-cases (ltb n (2 ^ 63))) [
    | inl e ↦ rw e (negsuc-Reads calls n (ground arith))
    | inr e ↦ rw e (neg_bignum-Reads n h)
  ]

  pub integer-Trip : (z : ℤ) → bit_length (magnitude z) < 2 ^ 64 → Trip calls (int z) (int z)
  integer-Trip z h = record {
    written = integer_bytes z;
    writes = λ buf. encode_value-integer buf z h;
    nonempty = integer_bytes-nonempty z;
    reads = integer-Reads z h;
  }
