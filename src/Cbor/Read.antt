-- ===== src/Cbor/Read.antt =====
-- The decoders of ext/aws_crt/src/cbor.rs that read no nested item: integers, strings, floats,
-- bignums and map keys. A value they make is given by its content, a number or bytes.
pub mod FastPath
pub mod Within
use aws_crt.Prelude.{
  ℕ, zero, suc, ◌+◌, ◌/◌, ◌^◌, bit_and, ◌&&◌, ltb, leb, ◌==◌, if◌then◌else◌, List, [], ◌++◌, inl,
  inr, ◌⊎◌, String, length, get_or, take, drop, from_be,
}
use aws_crt.Prelude.Int.{ℤ, pos, negsuc, sub_ℕ}
use aws_crt.Cbor.Result.{
  Result, ok, err, out_of_fuel, ◌>>=◌, out_of_bytes, expected_integer, invalid_bignum_tag, raised,
}
use aws_crt.Cbor.Float.{half_value}
use aws_crt.Cbor.Head.{dec_peek, dec_take, dec_read_info, dec_read_count}
use mathlib.Core.Bool.{true, false}

-- The Integer of a head: `val` for major type 0 and -1 - `val` for major type 1. The source picks
-- among four ways to make the Ruby object, all of which give this number.
unfoldable pub decode_integer_raw : List ℕ → ℕ → Result (ℤ × ℕ)
decode_integer_raw bytes p = do
  ((major, ai), p₁) ← dec_read_info bytes p
  (val, p₂) ← dec_read_count bytes p₁ ai
  if major == 0
      then ok (pos val, p₂)
      else if major == 1
      then ok (negsuc val, p₂)
      else err (expected_integer major)

-- A head whose major type is not looked at, and as many bytes as its count.
unfoldable pub read_chunk : List ℕ → ℕ → Result (List ℕ × ℕ)
read_chunk bytes p = do
  (info, p₁) ← dec_read_info bytes p
  (len, p₂) ← dec_read_count bytes p₁ (info.1)
  dec_take bytes p₂ len

unfoldable pub decode_binary_raw : List ℕ → ℕ → Result (List ℕ × ℕ)
decode_binary_raw bytes p = read_chunk bytes p

-- The bytes of a text, by the fast path for short strings and else by the head.
unfoldable pub decode_text_raw : List ℕ → ℕ → Result (List ℕ × ℕ)
decode_text_raw bytes p =
    let ai = bit_and (get_or bytes p 0) 0x1f in
    if ltb p (length bytes) && (ltb ai 24 && leb (p + 1 + ai) (length bytes))
    then ok (take ai (drop (p + 1) bytes), p + 1 + ai)
    else read_chunk bytes p

-- The key of a pair: the inlined fast path of the two map decoders, or decode_text_raw.
unfoldable pub decode_key : List ℕ → ℕ → Result (List ℕ × ℕ)
decode_key bytes p =
    let ib = get_or bytes p 0 in
    let kai = bit_and ib 0x1f in
    if ltb p (length bytes)
    then (if ib / 2 ^ 5 == 3 && ltb kai 24
        then (if leb (p + 1 + kai) (length bytes)
            then ok (take kai (drop (p + 1) bytes), p + 1 + kai)
            else decode_text_raw bytes p)
        else decode_text_raw bytes p)
    else decode_text_raw bytes p

-- The loop of decode_indef_binary and decode_indef_text.
unfoldable pub decode_chunks : ℕ → List ℕ → List ℕ → ℕ → Result (List ℕ × ℕ)
decode_chunks zero bytes result p = out_of_fuel
decode_chunks (suc rounds) bytes result p = do
  ib ← dec_peek bytes p
  let rest = read_chunk bytes p >>= λ (chunk, p'). decode_chunks rounds bytes (result ++ chunk) p'
  if ib == 0xff then ok (result, p + 1) else rest

unfoldable pub decode_indef_string : List ℕ → ℕ → Result (List ℕ × ℕ)
unfolding decode_chunks
decode_indef_string bytes p = decode_chunks (suc (length bytes)) bytes [] (p + 1)

-- The bits of the f64 that a half-precision item stands for.
unfoldable pub decode_half_raw : List ℕ → ℕ → Result (ℕ × ℕ)
unfolding half_value
decode_half_raw bytes p = do (b, p') ← dec_take bytes (p + 1) 2; ok (half_value (from_be b), p')

-- The four or eight bytes behind the head of a float, which decode_value reads itself.
abbrev pub read_float : List ℕ → ℕ → ℕ → Result (ℕ × ℕ)
read_float bytes p n =
    let start = p + 1 in
    if ltb (length bytes) (start + n)
    then err (out_of_bytes n (sub_ℕ (length bytes) start))
    else ok (from_be (take n (drop start bytes)), start + n)

unfoldable pub decode_bignum_raw : List ℕ → ℕ → ℕ → Result (ℤ × ℕ)
decode_bignum_raw bytes p tag = do
  (bs, p') ← read_chunk bytes p
  if tag == 2
      then ok (pos (from_be bs), p')
      else if tag == 3
      then ok (negsuc (from_be bs), p')
      else err (invalid_bignum_tag tag)

-- A call into Ruby that returned a value or raised.
abbrev pub from_ruby {ℓ} : {A : Type ℓ} → String ⊎ A → Result A
from_ruby (inl message) = err (raised message)
from_ruby (inr a) = ok a

abbrev pub then_ok {ℓ κ} : {A : Type ℓ} {B : Type κ} → Result (A × ℕ) → (A → B) → Result (B × ℕ)
then_ok m f = m >>= λ (a, p). ok (f a, p)
