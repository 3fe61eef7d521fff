-- ===== src/Cbor/Decode.antt =====
-- The decoder of ext/aws_crt/src/cbor.rs, item by item. `decode_value` calls itself at the places
-- where the source does, through the argument `decode` of the readers of containers and tags; its
-- fuel counts how deep items nest, and `rounds` bounds the loops over indefinite-length items.
pub mod Within
use aws_crt.Prelude.{
  ℕ, zero, suc, ◌+◌, ◌/◌, ◌^◌, bit_and, ◌&&◌, ◌||◌, ltb, leb, ◌==◌, if◌then◌else◌, List, [], ◌∷◌,
  length, get_or,
}
use aws_crt.Prelude.Int.{pos, negsuc, sub_ℕ}
use aws_crt.Cbor.Value.{
  Value, Items, Pairs, binary, utf8, nil, bool, int, float, str, symbol, array, hash, tagged, time,
  decimal, no_items, item, no_pairs, hash_aset,
}
use aws_crt.Cbor.Result.{
  Result, ok, err, panicked, out_of_fuel, ◌>>=◌, out_of_bytes, unexpected_break_code, reserved_info,
  expected_pair, raised,
}
use aws_crt.Cbor.Calls.{Calls}
use aws_crt.Cbor.Float.{widen}
use aws_crt.Cbor.Head.{dec_peek, dec_read_info, dec_read_count}
use mathlib.Core.Bool.{true, false}
use aws_crt.Cbor.Read.{
  decode_integer_raw, decode_binary_raw, decode_text_raw, decode_key, decode_indef_string,
  decode_half_raw, read_float, decode_bignum_raw, from_ruby, then_ok,
}

-- The bytes of the symbol :undefined.
abbrev pub undefined_bytes : List ℕ
undefined_bytes = 117 ∷ 110 ∷ 100 ∷ 101 ∷ 102 ∷ 105 ∷ 110 ∷ 101 ∷ 100 ∷ []

module _ {Time Decimal : Type 0} (calls : Calls Time Decimal) where
  unfoldable pub decode_bigdec_raw : List ℕ → ℕ → Result (Value Time Decimal × ℕ)
  decode_bigdec_raw bytes p = do
    (info, p₁) ← dec_read_info bytes p
    (len, p₂) ← dec_read_count bytes p₁ (info.1)
    if len == 2
        then (do
          (e, p₃) ← decode_integer_raw bytes p₂
          (m, p₄) ← decode_integer_raw bytes p₃
          d ← from_ruby (calls.scaled m e)
          ok (decimal d, p₄))
        else err (expected_pair len)

  -- Major type 7.
  unfoldable pub decode_simple : List ℕ → ℕ → ℕ → Result (Value Time Decimal × ℕ)
  decode_simple bytes p add_info =
      if add_info == 20
      then ok (bool false, p + 1)
      else if add_info == 21
      then ok (bool true, p + 1)
      else if add_info == 22
      then ok (nil, p + 1)
      else if add_info == 23
      then ok (symbol undefined_bytes, p + 1)
      else if add_info == 25
      then then_ok (decode_half_raw bytes p) float
      else if add_info == 26
      then then_ok (read_float bytes p 4) (λ b. float (widen b))
      else if add_info == 27
      then then_ok (read_float bytes p 8) float
      else if add_info == 31
      then err unexpected_break_code
      else err (reserved_info add_info)

  module _ (bytes : List ℕ) (decode : ℕ → Result (Value Time Decimal × ℕ)) where
    -- The loop of decode_array_raw, with the items in the order of rb_ary_push.
    unfoldable pub decode_items : ℕ → ℕ → Result (Items Time Decimal × ℕ)
    decode_items zero p = ok (no_items, p)
    decode_items (suc n) p =
        decode p >>= λ (v, p₁). decode_items n p₁ >>= λ (vs, p₂). ok (item v vs, p₂)

    unfoldable pub decode_array_raw : ℕ → Result (Value Time Decimal × ℕ)
    decode_array_raw p = do
      (info, p₁) ← dec_read_info bytes p
      (len, p₂) ← dec_read_count bytes p₁ (info.1)
      if calls.ary_capa len
          then then_ok (decode_items len p₂) array
          else err (raised "array size too big")

    -- The loop of decode_map_raw.
    unfoldable pub decode_pairs : ℕ → Pairs Time Decimal → ℕ → Result (Pairs Time Decimal × ℕ)
    decode_pairs zero acc p = ok (acc, p)
    decode_pairs (suc n) acc p = decode_key bytes p >>= λ (k, p₁).
        decode p₁ >>= λ (v, p₂). decode_pairs n (hash_aset k v acc) p₂

    unfoldable pub decode_map_raw : ℕ → Result (Value Time Decimal × ℕ)
    decode_map_raw p = do
      (info, p₁) ← dec_read_info bytes p
      (len, p₂) ← dec_read_count bytes p₁ (info.1)
      if calls.hash_capa len
          then then_ok (decode_pairs len no_pairs p₂) hash
          else err (raised "hash size too big")

    unfoldable pub indef_items : ℕ → ℕ → Result (Items Time Decimal × ℕ)
    indef_items zero p = out_of_fuel
    indef_items (suc rounds) p = do
      ib ← dec_peek bytes p
      let rest = decode p >>= λ (v, p₁). indef_items rounds p₁ >>= λ (vs, p₂). ok (item v vs, p₂)
      if ib == 0xff then ok (no_items, p + 1) else rest

    unfoldable pub decode_indef_array : ℕ → Result (Value Time Decimal × ℕ)
    decode_indef_array p = then_ok (indef_items (suc (length bytes)) (p + 1)) array

    unfoldable pub indef_pairs : ℕ → Pairs Time Decimal → ℕ → Result (Pairs Time Decimal × ℕ)
    indef_pairs zero acc p = out_of_fuel
    indef_pairs (suc rounds) acc p = do
      ib ← dec_peek bytes p
      let rest = decode_key bytes p >>= λ (k, p₁).
          decode p₁ >>= λ (v, p₂). indef_pairs rounds (hash_aset k v acc) p₂
      if ib == 0xff then ok (acc, p + 1) else rest

    unfoldable pub decode_indef_map : ℕ → Result (Value Time Decimal × ℕ)
    decode_indef_map p = then_ok (indef_pairs (suc (length bytes)) no_pairs (p + 1)) hash

    -- The match on the tag in decode_tag_raw.
    unfoldable pub decode_tagged : ℕ → ℕ → Result (Value Time Decimal × ℕ)
    decode_tagged tag p =
        if tag == 1
        then (do (v, p₁) ← decode p; t ← from_ruby (calls.time_at v); ok (time t, p₁))
        else if tag == 2 || tag == 3
        then then_ok (decode_bignum_raw bytes p tag) int
        else if tag == 4
        then decode_bigdec_raw bytes p
        else then_ok (decode p) (tagged tag)

    unfoldable pub decode_tag_raw : ℕ → Result (Value Time Decimal × ℕ)
    decode_tag_raw p = do
      (info, p₁) ← dec_read_info bytes p
      (tag, p₂) ← dec_read_count bytes p₁ (info.1)
      decode_tagged tag p₂

    -- The dispatch of decode_value on the two parts of the initial byte.
    unfoldable pub decode_major : ℕ → ℕ → ℕ → Result (Value Time Decimal × ℕ)
    decode_major p major add_info =
        if major == 0 && ltb add_info 24
        then ok (int (pos add_info), p + 1)
        else if major == 1 && ltb add_info 24
        then ok (int (negsuc add_info), p + 1)
        else if major == 0 || major == 1
        then then_ok (decode_integer_raw bytes p) int
        else if major == 2 && add_info == 31
        then then_ok (decode_indef_string bytes p) (str binary)
        else if major == 2
        then then_ok (decode_binary_raw bytes p) (str binary)
        else if major == 3 && add_info == 31
        then then_ok (decode_indef_string bytes p) (str utf8)
        else if major == 3
        then then_ok (decode_text_raw bytes p) (str utf8)
        else if major == 4 && add_info == 31
        then decode_indef_array p
        else if major == 4
        then decode_array_raw p
        else if major == 5 && add_info == 31
        then decode_indef_map p
        else if major == 5
        then decode_map_raw p
        else if major == 6
        then decode_tag_raw p
        else if major == 7
        then decode_simple bytes p add_info
        else panicked

    unfoldable pub decode_item : ℕ → Result (Value Time Decimal × ℕ)
    decode_item p =
        let ib = get_or bytes p 0 in
        if leb (length bytes) p
        then err (out_of_bytes 1 (sub_ℕ (length bytes) p))
        else decode_major p (ib / 2 ^ 5) (bit_and ib 0x1f)

  unfoldable pub decode_value : ℕ → List ℕ → ℕ → Result (Value Time Decimal × ℕ)
  decode_value zero bytes p = out_of_fuel
  decode_value (suc f) bytes p = decode_item bytes (λ q. decode_value f bytes q) p
