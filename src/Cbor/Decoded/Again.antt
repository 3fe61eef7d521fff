-- ===== src/Cbor/Decoded/Again.antt =====
-- A decoded value that holds nothing Ruby reads for itself is encoded again, and read back as it was.
use aws_crt.Prelude.{
  ℕ, ◌+◌, ◌*◌, ◌^◌, ◌<◌, ◌≡◌, refl, subst, false, List, length, inl, inr, Bool-cases, ltb,
}
use aws_crt.Cbor.Value.{Value, Items, Pairs}
use aws_crt.Cbor.Calls.{Calls}
use aws_crt.Cbor.Result.{Result, ok}
use aws_crt.Cbor.Result.Makes.{Makes, made, refused, panics, starved}
use aws_crt.Cbor.Float.{is_nan}
use aws_crt.Cbor.Api.{encode, decode, new_decoder, settle, Decoder}
use aws_crt.Cbor.View.{View, ViewItems, ViewPairs, Key}
use aws_crt.Cbor.RoundTrip.Api.{encode-View, decode-encode}
use aws_crt.Cbor.Decoded.Numbers.{AreBytes}
use aws_crt.Cbor.Decoded.Shape.{Shape, ShapeItems, ShapePairs}
use aws_crt.Cbor.Decoded.Keys.{set_again, set_again_lem}
use aws_crt.Cbor.Decoded.Values.{Roomy, decode_value-Makes}

module _ {Time Decimal : Type 0} where
  -- No Time, no BigDecimal, no Symbol and no NaN stands in the value.
  unfoldable mutual
    pub Plain : Value Time Decimal → Type 0
    Plain (Value.float f) = is_nan f ≡ false
    Plain (Value.array xs) = PlainItems xs
    Plain (Value.hash ps) = PlainPairs ps
    Plain (Value.tagged tag v) = Plain v
    Plain (Value.symbol bs) = ⊥
    Plain (Value.time t) = ⊥
    Plain (Value.decimal d) = ⊥
    Plain Value.nil = Unit {0}
    Plain (Value.bool b) = Unit {0}
    Plain (Value.int z) = Unit {0}
    Plain (Value.str enc bs) = Unit {0}
    Plain (Value.object t c) = Unit {0}

    pub PlainItems : Items Time Decimal → Type 0
    PlainItems Items.no_items = Unit {0}
    PlainItems (Items.item v vs) = Plain v × PlainItems vs

    pub PlainPairs : Pairs Time Decimal → Type 0
    PlainPairs Pairs.no_pairs = Unit {0}
    PlainPairs (Pairs.pair k v ps) = Plain v × PlainPairs ps

module _ {Time Decimal : Type 0} (calls : Calls Time Decimal) where
  mutual
    unfolding Plain PlainItems PlainPairs

    Shape-View : {v : Value Time Decimal} → Shape calls v → Plain v → View calls v v
    Shape-View Shape.nil p = View.nil
    Shape-View (Shape.bool b) p = View.bool b
    Shape-View (Shape.int z h) p = View.int z h
    Shape-View (Shape.float f h) p = View.float f h p
    Shape-View (Shape.binary bs h) p = View.str _ bs h
    Shape-View (Shape.utf8 bs h) p = View.str _ bs h
    Shape-View (Shape.symbol bs) p = absurd p
    Shape-View (Shape.array h c s) p = View.array h c (ShapeItems-ViewItems s p)
    Shape-View (Shape.hash {ps} h c s) p = View.hash h c (
        subst (ViewPairs calls ps Pairs.no_pairs) (set_again_lem calls s)
          (ShapePairs-ViewPairs s p))
    Shape-View (Shape.tagged tag u h s) p = View.tagged tag u h (Shape-View s p)
    Shape-View (Shape.time t) p = absurd p
    Shape-View (Shape.decimal d) p = absurd p

    ShapeItems-ViewItems :
        {xs : Items Time Decimal} → ShapeItems calls xs → PlainItems xs → ViewItems calls xs xs
    ShapeItems-ViewItems ShapeItems.no_items p = ViewItems.no_items
    ShapeItems-ViewItems (ShapeItems.item s t) p =
        ViewItems.item (Shape-View s (p.0)) (ShapeItems-ViewItems t (p.1))

    ShapePairs-ViewPairs :
        {ps acc : Pairs Time Decimal}
        → ShapePairs calls ps
        → PlainPairs ps
        → ViewPairs calls ps acc (set_again ps acc)
    ShapePairs-ViewPairs ShapePairs.no_pairs p = ViewPairs.no_pairs refl
    ShapePairs-ViewPairs (ShapePairs.pair {k} h n s t) p =
        ViewPairs.pair (Key.str _ k h) (Shape-View s (p.0)) (ShapePairs-ViewPairs t (p.1))

  -- A value that decode returned.
  settle-Makes :
      (d : Decoder) (P : Value Time Decimal → Type 0) {r : Result (Value Time Decimal × ℕ)}
      {v : Value Time Decimal}
      → Makes (λ v q. P v) r
      → (settle d r).1 ≡ ok v
      → P v
  settle-Makes d P {v} (made {a} {q} h) e = elim (Bool-cases (ltb q (length (d.input)))) [
    | inl more ↦ absurd (cc (rw more at e))
    | inr done ↦ let same : ok a ≡ ok v = rw done at e in let back : a ≡ v = cc in rw (← back) h
  ]
  settle-Makes d P refused e = absurd cc
  settle-Makes d P panics e = absurd cc
  settle-Makes d P starved e = absurd cc

  module _ (bytes : List ℕ) (valid : AreBytes bytes) (small : 8 * length bytes + 64 < 2 ^ 64)
      (roomy : Roomy calls (length bytes)) where
    -- Where the input is bytes, shorter than 2 ^ 61 - 8 of them, and Ruby allocates arrays and hashes
    -- for as many elements as it has bytes and one more, and a smaller hash wherever it allocates a
    -- larger one: whatever value decode returns is well formed. Lengths, tags and floats have 64 bits, a String is binary or UTF-8, each key of a Hash is a UTF-8
    -- String and stands once, and no Tagged has the tag 1, 2, 3 or 4.
    pub decode-Shape : {v : Value Time Decimal} → decode calls bytes ≡ ok v → Shape calls v
    unfolding decode
    decode-Shape e =
        settle-Makes (new_decoder bytes) (Shape calls)
          (decode_value-Makes calls bytes valid small roomy (length bytes + 1) 0) e

    -- Under the same conditions on the input and on Ruby: a value that decode returns, without a Time,
    -- a BigDecimal, a Symbol and a NaN in it, whose encoding, if there is one, is shorter than 2 ^ 64
    -- bytes, is taken by encode, and decoding what encode made gives the same value.
    pub decode_again :
        (v : Value Time Decimal)
        → decode calls bytes ≡ ok v
        → Plain v
        → ((bs : List ℕ) → encode calls v ≡ ok bs → length bs < 2 ^ 64)
        → (bs : List ℕ) × (encode calls v ≡ ok bs) × (decode calls bs ≡ ok v)
    decode_again v e p short =
        let view = Shape-View (decode-Shape e) p in
        let (bs, written, nonempty) = encode-View calls view in
        (bs, written, decode-encode calls bs view written (short bs written))
