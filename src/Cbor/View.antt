-- ===== src/Cbor/View.antt =====
-- What reading back gives for a written value, as a relation on Ruby values. `View v w` holds when
-- `v` is inside the limits of the format and of ext/aws_crt/src/cbor.rs, and relates it to the value
-- `w` that decoding makes of its bytes: symbols and strings of any text encoding become UTF-8
-- strings, a NaN loses the low bits of its payload, and equal keys of a hash fall together.
use aws_crt.Prelude.{ℕ, ◌^◌, ◌<◌, ◌≡◌, Bool, true, false, List, length, inr, ◌⊎◌}
use aws_crt.Prelude.Int.{ℤ, pos, negsuc, ◌-ℤ◌, ◌*ℤ◌}
use aws_crt.Cbor.Value.{
  Value, Items, Pairs, Encoding, binary, utf8, other_encoding, count_items, count_pairs, hash_aset,
}
use aws_crt.Cbor.Calls.{Calls, finite}
use aws_crt.Cbor.Float.{is_nan, narrow, widen, bit_length}
use aws_crt.Cbor.Encode.{parse_i128}

-- n for n, and n - 1 for -n.
abbrev pub magnitude : ℤ → ℕ
magnitude (pos n) = n
magnitude (negsuc n) = n

abbrev pub text_encoding : Encoding → Encoding
text_encoding binary = binary
text_encoding utf8 = utf8
text_encoding (other_encoding i) = utf8

-- The tags that the decoder leaves in a Tagged: it makes values of its own from 1, 2, 3 and 4.
abbrev pub Untaken : ℕ → Type 0
Untaken tag = (tag ≡ 0) ⊎ (4 < tag)

module _ {Time Decimal : Type 0} where
  -- The keys that can be read back, and their bytes.
  pub data Key : Value Time Decimal → List ℕ → Type 0 where
    str : (enc : Encoding) (bs : List ℕ) → length bs < 2 ^ 64 → Key (Value.str enc bs) bs
    symbol : (bs : List ℕ) → length bs < 2 ^ 64 → Key (Value.symbol bs) bs

module _ {Time Decimal : Type 0} (calls : Calls Time Decimal) where
  mutual
    pub data View : Value Time Decimal → Value Time Decimal → Type 0 where
      nil : View Value.nil Value.nil
      bool : (b : Bool) → View (Value.bool b) (Value.bool b)
      int : (z : ℤ) → bit_length (magnitude z) < 2 ^ 64 → View (Value.int z) (Value.int z)
      float : (f : ℕ) → f < 2 ^ 64 → is_nan f ≡ false → View (Value.float f) (Value.float f)
      nan :
          (f : ℕ)
          → f < 2 ^ 64
          → is_nan f ≡ true
          → View (Value.float f) (Value.float (widen (narrow f)))
      str :
          (enc : Encoding) (bs : List ℕ)
          → length bs < 2 ^ 64
          → View (Value.str enc bs) (Value.str (text_encoding enc) bs)
      symbol : (bs : List ℕ) → length bs < 2 ^ 64 → View (Value.symbol bs) (Value.str utf8 bs)
      array :
          {xs ys : Items Time Decimal}
          → count_items xs < 2 ^ 64
          → calls.ary_capa (count_items xs) ≡ true
          → ViewItems xs ys
          → View (Value.array xs) (Value.array ys)
      hash :
          {ps qs : Pairs Time Decimal}
          → count_pairs ps < 2 ^ 64
          → calls.hash_capa (count_pairs ps) ≡ true
          → ViewPairs ps Pairs.no_pairs qs
          → View (Value.hash ps) (Value.hash qs)
      tagged :
          (tag : ℕ) {v w : Value Time Decimal}
          → Untaken tag
          → tag < 2 ^ 64
          → View v w
          → View (Value.tagged tag v) (Value.tagged tag w)
      time :
          (t t' : Time)
          → calls.to_f t < 2 ^ 64
          → calls.time_at (Value.float (calls.to_f t)) ≡ inr t'
          → View (Value.time t) (Value.time t')
      decimal :
          (d d' : Decimal) (sign : ℤ) (digits : List ℕ) (e m x : ℤ)
          → calls.parts d ≡ finite sign digits e
          → pos (parse_i128 digits) *ℤ sign ≡ m
          → e -ℤ pos (length digits) ≡ x
          → magnitude m < 2 ^ 64
          → magnitude x < 2 ^ 64
          → calls.scaled m x ≡ inr d'
          → View (Value.decimal d) (Value.decimal d')

    pub data ViewItems : Items Time Decimal → Items Time Decimal → Type 0 where
      no_items : ViewItems Items.no_items Items.no_items
      item :
          {v w : Value Time Decimal} {xs ys : Items Time Decimal}
          → View v w
          → ViewItems xs ys
          → ViewItems (Items.item v xs) (Items.item w ys)

    -- The pairs are set one after the other in the hash of the middle argument.
    pub data ViewPairs : Pairs Time Decimal → Pairs Time Decimal → Pairs Time Decimal → Type 0 where
      no_pairs : {acc out : Pairs Time Decimal} → acc ≡ out → ViewPairs Pairs.no_pairs acc out
      pair :
          {k v w : Value Time Decimal} {bs : List ℕ} {ps acc out : Pairs Time Decimal}
          → Key k bs
          → View v w
          → ViewPairs ps (hash_aset bs w acc) out
          → ViewPairs (Pairs.pair k v ps) acc out
