-- ===== src/Cbor/Encode.antt =====
-- The encoder of ext/aws_crt/src/cbor.rs: write_head, the encoders of integers, floats, bignums and
-- BigDecimals, and encode_value, each appending to a buffer.
use aws_crt.Prelude.{
  ℕ, ◌+◌, ◌*◌, ◌/◌, ◌%◌, ◌^◌, bit_or, Bool, true, false, ltb, leb, if◌then◌else◌, List, [], ◌∷◌,
  ◌++◌, length, to_be,
}
use aws_crt.Prelude.Int.{ℤ, pos, negsuc, ◌-ℤ◌, ◌*ℤ◌}
use aws_crt.Cbor.Value.{
  Value, Items, Pairs, Encoding, binary, utf8, other_encoding, nil, bool, int, float, str, symbol,
  array, hash, tagged, time, decimal, object, no_items, item, no_pairs, pair, count_items,
  count_pairs,
}
use aws_crt.Cbor.Result.{Written, done, failed, and_then, unknown_type}
use aws_crt.Cbor.Calls.{Calls, DecimalParts, infinite, not_a_number, finite}
use aws_crt.Cbor.Float.{is_nan, same_float, narrow, widen, bit_length}

abbrev pub major_unsigned : ℕ
major_unsigned = 0x00

abbrev pub major_negative : ℕ
major_negative = 0x20

abbrev pub major_bytes : ℕ
major_bytes = 0x40

abbrev pub major_text : ℕ
major_text = 0x60

abbrev pub major_array : ℕ
major_array = 0x80

abbrev pub major_map : ℕ
major_map = 0xa0

abbrev pub major_tag : ℕ
major_tag = 0xc0

abbrev pub major_simple : ℕ
major_simple = 0xe0

abbrev pub float_marker : ℕ
float_marker = 0xfa

abbrev pub double_marker : ℕ
double_marker = 0xfb

abbrev pub tag_epoch : ℕ
tag_epoch = 1

abbrev pub tag_bignum : ℕ
tag_bignum = 2

abbrev pub tag_neg_bignum : ℕ
tag_neg_bignum = 3

abbrev pub tag_bigdec : ℕ
tag_bigdec = 4

abbrev push : List ℕ → ℕ → List ℕ
push buf b = buf ++ (b ∷ [])

-- Each cast keeps the low bytes of the value.
unfoldable pub write_head : List ℕ → ℕ → ℕ → List ℕ
write_head buf major value =
    if leb value 23
    then push buf (bit_or major (value % 2 ^ 8))
    else if leb value 0xff
    then push (push buf (bit_or major 24)) (value % 2 ^ 8)
    else if leb value 0xffff
    then push buf (bit_or major 25) ++ to_be 2 (value % 2 ^ 16)
    else if leb value 0xffff_ffff
    then push buf (bit_or major 26) ++ to_be 4 (value % 2 ^ 32)
    else push buf (bit_or major 27) ++ to_be 8 value

-- `-1 - val` of a negative `val` is never negative; `as u64` keeps 64 bits.
unfoldable pub encode_integer : List ℕ → ℤ → List ℕ
encode_integer buf (pos n) = write_head buf major_unsigned (n % 2 ^ 64)
encode_integer buf (negsuc n) = write_head buf major_negative (n % 2 ^ 64)

unfoldable pub encode_text : List ℕ → List ℕ → List ℕ
encode_text buf bytes = write_head buf major_text (length bytes) ++ bytes

unfoldable pub encode_double : List ℕ → ℕ → List ℕ
encode_double buf val = push buf double_marker ++ to_be 8 val

unfoldable pub encode_auto_float : List ℕ → ℕ → List ℕ
encode_auto_float buf val =
    if is_nan val
    then push buf float_marker ++ to_be 4 (narrow val)
    else (let single = narrow val in
        if same_float (widen single) val
        then push buf float_marker ++ to_be 4 single
        else push buf double_marker ++ to_be 8 val)

-- The magnitude of a bignum, or -1 less a negative one, in whole bytes.
unfoldable pub magnitude_bytes : ℕ → List ℕ
magnitude_bytes m = to_be ((bit_length m + 7) / 8) m

unfoldable pub encode_tagged_bytes : List ℕ → ℕ → List ℕ → List ℕ
encode_tagged_bytes buf tag bytes =
    write_head (write_head buf major_tag tag) major_bytes (length bytes) ++ bytes

-- The first tests are the conversions to i64 and u64.
unfoldable pub encode_ruby_bignum : List ℕ → ℤ → List ℕ
unfolding encode_tagged_bytes
encode_ruby_bignum buf (pos n) =
    if ltb n (2 ^ 63)
    then encode_integer buf (pos n)
    else if ltb n (2 ^ 64)
    then write_head buf major_unsigned n
    else encode_tagged_bytes buf tag_bignum (magnitude_bytes n)
encode_ruby_bignum buf (negsuc n) =
    if ltb n (2 ^ 63)
    then encode_integer buf (negsuc n)
    else encode_tagged_bytes buf tag_neg_bignum (magnitude_bytes n)

-- The number that decimal digits spell.
unfoldable pub digits_value : ℕ → List ℕ → ℕ
digits_value acc [] = acc
digits_value acc (d ∷ ds) = digits_value (acc * 10 + d) ds

-- `digits_str.parse::<i128>().unwrap_or(0)`.
unfoldable pub parse_i128 : List ℕ → ℕ
unfolding digits_value
parse_i128 [] = 0
parse_i128 (d ∷ ds) = let n = digits_value 0 (d ∷ ds) in if ltb n (2 ^ 127) then n else 0

unfoldable pub encode_big_decimal : List ℕ → DecimalParts → List ℕ
unfolding ◌-ℤ◌ ◌*ℤ◌
encode_big_decimal buf (infinite (pos n)) = encode_auto_float buf 0x7ff0_0000_0000_0000
encode_big_decimal buf (infinite (negsuc n)) = encode_auto_float buf 0xfff0_0000_0000_0000
encode_big_decimal buf not_a_number = encode_auto_float buf 0x7ff8_0000_0000_0000
encode_big_decimal buf (finite sign digits e) =
    let cbor_exp = e -ℤ pos (length digits) in
    let mantissa = pos (parse_i128 digits) *ℤ sign in
    encode_integer
      (encode_integer (write_head (write_head buf major_tag tag_bigdec) major_array 2) cbor_exp)
      mantissa

-- FIXNUM_P: Ruby keeps these integers in the VALUE itself.
unfoldable pub is_fixnum : ℤ → Bool
is_fixnum (pos n) = ltb n (2 ^ 62)
is_fixnum (negsuc n) = ltb n (2 ^ 62)

-- The branch of encode_value for RUBY_T_STRING.
unfoldable pub encode_string : Encoding → List ℕ → List ℕ → List ℕ
encode_string binary bytes buf = write_head buf major_bytes (length bytes) ++ bytes
encode_string utf8 bytes buf = write_head buf major_text (length bytes) ++ bytes
encode_string (other_encoding i) bytes buf = write_head buf major_text (length bytes) ++ bytes

module _ {Time Decimal : Type 0} (calls : Calls Time Decimal) where
  unfoldable mutual
    pub encode_value : Value Time Decimal → List ℕ → Written
    encode_value nil buf = done (write_head buf major_simple 22)
    encode_value (bool true) buf = done (write_head buf major_simple 21)
    encode_value (bool false) buf = done (write_head buf major_simple 20)
    encode_value (int z) buf =
        done (if is_fixnum z then encode_integer buf z else encode_ruby_bignum buf z)
    encode_value (float f) buf = done (encode_auto_float buf f)
    encode_value (str enc bytes) buf = done (encode_string enc bytes buf)
    encode_value (array vs) buf = encode_items vs (write_head buf major_array (count_items vs))
    encode_value (hash ps) buf = encode_pairs ps (write_head buf major_map (count_pairs ps))
    encode_value (symbol bytes) buf = done (encode_text buf bytes)
    encode_value (tagged tag v) buf = encode_value v (write_head buf major_tag tag)
    encode_value (time t) buf =
        done (encode_double (write_head buf major_tag tag_epoch) (calls.to_f t))
    encode_value (decimal d) buf = done (encode_big_decimal buf (calls.parts d))
    encode_value (object type class) buf = failed buf (unknown_type class)

    -- The loop over RARRAY_CONST_PTR.
    pub encode_items : Items Time Decimal → List ℕ → Written
    encode_items no_items buf = done buf
    encode_items (item v vs) buf = and_then (encode_value v buf) (λ buf'. encode_items vs buf')

    -- hash_foreach_cb on each pair, which ends the iteration at an error.
    pub encode_pairs : Pairs Time Decimal → List ℕ → Written
    encode_pairs no_pairs buf = done buf
    encode_pairs (pair k v ps) buf =
        and_then (encode_value k buf) (λ b. and_then (encode_value v b) (λ b'. encode_pairs ps b'))
