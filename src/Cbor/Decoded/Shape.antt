-- ===== src/Cbor/Decoded/Shape.antt =====
-- The values that the decoder of ext/aws_crt/src/cbor.rs returns.
use aws_crt.Prelude.{ℕ, ◌^◌, ◌<◌, ◌≡◌, Bool, true, false, List, length, same_bytes}
use aws_crt.Prelude.Int.{ℤ}
use aws_crt.Cbor.Value.{Value, Items, Pairs, Encoding, count_items, count_pairs}
use aws_crt.Cbor.Calls.{Calls}
use aws_crt.Cbor.Float.{bit_length}
use aws_crt.Cbor.View.{magnitude, Untaken}

module _ {Time Decimal : Type 0} where
  -- The keys of a hash are UTF-8 strings, and this one is not among them.
  pub data NewKey (k : List ℕ) : Pairs Time Decimal → Type 0 where
    no_pairs : NewKey k Pairs.no_pairs
    pair :
        {j : List ℕ} {w : Value Time Decimal} {ps : Pairs Time Decimal}
        → same_bytes j k ≡ false
        → NewKey k ps
        → NewKey k (Pairs.pair (Value.str Encoding.utf8 j) w ps)

module _ {Time Decimal : Type 0} (calls : Calls Time Decimal) where
  mutual
    -- Lengths and tags fit in 64 bits, the keys of a hash are UTF-8 strings, each of them once, no tag
    -- is one that the decoder replaces, and a String is binary or UTF-8.
    pub data Shape : Value Time Decimal → Type 0 where
      nil : Shape Value.nil
      bool : (b : Bool) → Shape (Value.bool b)
      int : (z : ℤ) → bit_length (magnitude z) < 2 ^ 64 → Shape (Value.int z)
      float : (f : ℕ) → f < 2 ^ 64 → Shape (Value.float f)
      binary : (bs : List ℕ) → length bs < 2 ^ 64 → Shape (Value.str Encoding.binary bs)
      utf8 : (bs : List ℕ) → length bs < 2 ^ 64 → Shape (Value.str Encoding.utf8 bs)
      symbol : (bs : List ℕ) → Shape (Value.symbol bs)
      array :
          {xs : Items Time Decimal}
          → count_items xs < 2 ^ 64
          → calls.ary_capa (count_items xs) ≡ true
          → ShapeItems xs
          → Shape (Value.array xs)
      hash :
          {ps : Pairs Time Decimal}
          → count_pairs ps < 2 ^ 64
          → calls.hash_capa (count_pairs ps) ≡ true
          → ShapePairs ps
          → Shape (Value.hash ps)
      tagged :
          (tag : ℕ) {v : Value Time Decimal}
          → Untaken tag
          → tag < 2 ^ 64
          → Shape v
          → Shape (Value.tagged tag v)
      time : (t : Time) → Shape (Value.time t)
      decimal : (d : Decimal) → Shape (Value.decimal d)

    pub data ShapeItems : Items Time Decimal → Type 0 where
      no_items : ShapeItems Items.no_items
      item :
          {v : Value Time Decimal} {xs : Items Time Decimal}
          → Shape v
          → ShapeItems xs
          → ShapeItems (Items.item v xs)

    pub data ShapePairs : Pairs Time Decimal → Type 0 where
      no_pairs : ShapePairs Pairs.no_pairs
      pair :
          {k : List ℕ} {v : Value Time Decimal} {ps : Pairs Time Decimal}
          → length k < 2 ^ 64
          → NewKey k ps
          → Shape v
          → ShapePairs ps
          → ShapePairs (Pairs.pair (Value.str Encoding.utf8 k) v ps)
