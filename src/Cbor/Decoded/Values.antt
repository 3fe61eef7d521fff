-- ===== src/Cbor/Decoded/Values.antt =====
-- What decode_value of ext/aws_crt/src/cbor.rs returns has the shape of Cbor.Decoded.Shape.
use aws_crt.Prelude.{
  ℕ, zero, suc, ◌+◌, ◌*◌, ◌^◌, ◌≤◌, ◌<◌, ◌≡◌, true, ◌&&◌, ◌||◌, ltb, leb, ◌==◌, List, length, arith,
  inl, inr, false, Bool-cases,
}
use aws_crt.Cbor.Value.{
  Value, Items, Pairs, int, array, hash, tagged, count_items, count_pairs, hash_aset,
}
use aws_crt.Cbor.Calls.{Calls}
use aws_crt.Cbor.Result.{Result}
use aws_crt.Cbor.Result.Makes.{
  Makes, made, refused, panics, starved, Makes-map, Makes-bind, Makes-if,
}
use aws_crt.Cbor.View.{Untaken}
use aws_crt.Cbor.Read.{decode_binary_raw}
use aws_crt.Cbor.Decode.{
  decode_items, decode_array_raw, decode_pairs, decode_map_raw, indef_items, decode_indef_array,
  indef_pairs, decode_indef_map, decode_tagged, decode_tag_raw, decode_major, decode_item,
  decode_value,
}
use aws_crt.Cbor.Decoded.Numbers.{AreBytes}
use aws_crt.Cbor.Decoded.Shape.{Shape, ShapeItems, ShapePairs}
use aws_crt.Cbor.Decoded.Keys.{hash_aset-ShapePairs, count_pairs-hash_aset}
use aws_crt.Cbor.Decoded.Readers.{
  then_ok-Makes, head-Makes, decode_integer_raw-Makes, read_chunk-Makes, decode_text_raw-Makes,
  decode_key-Makes, dec_peek-Makes, decode_indef_string-Makes, decode_bignum_raw-Makes,
}
use aws_crt.Cbor.Decoded.Leaves.{
  IsShape, from_ruby-Makes, short, decode_simple-Makes, decode_bigdec_raw-Makes,
}

-- Ruby allocates arrays and hashes for as many elements as the input has bytes, and one more; what
-- it allocates a hash for, it allocates a smaller one for.
pub record Roomy {Time Decimal : Type 0} (calls : Calls Time Decimal) (n : ℕ) : Type 0 where
  pub arrays : (k : ℕ) → k ≤ n + 1 → calls.ary_capa k ≡ true
  pub hashes : (k : ℕ) → k ≤ n + 1 → calls.hash_capa k ≡ true
  pub smaller : (j k : ℕ) → j ≤ k → calls.hash_capa k ≡ true → calls.hash_capa j ≡ true

module _ {Time Decimal : Type 0} (calls : Calls Time Decimal) (bytes : List ℕ)
    (valid : AreBytes bytes) (small : 8 * length bytes + 64 < 2 ^ 64)
    (roomy : Roomy calls (length bytes)) where
  -- With what decoding a nested item makes.
  module _ (decode : ℕ → Result (Value Time Decimal × ℕ))
      (inner : (q : ℕ) → Makes (IsShape calls) (decode q)) where
    abbrev SomeItems : ℕ → Items Time Decimal → ℕ → Type 0
    SomeItems n vs q = (count_items vs ≤ n) × ShapeItems calls vs

    abbrev SomePairs : ℕ → Pairs Time Decimal → ℕ → Type 0
    SomePairs n ps q = (count_pairs ps ≤ n) × ShapePairs calls ps

    decode_items-Makes :
        (n p : ℕ)
        → Makes
            (λ vs q. (count_items vs ≡ n) × ShapeItems calls vs)
            (decode_items calls bytes decode n p)
    unfolding decode_items count_items
    decode_items-Makes zero p = made (omega arith, ShapeItems.no_items)
    decode_items-Makes (suc n) p = Makes-bind _ (inner p) (λ v q s.
        Makes-bind _ (decode_items-Makes n q)
          (λ vs r h. made (omega arith, ShapeItems.item s (h.1))))

    decode_pairs-Makes :
        (n : ℕ) (acc : Pairs Time Decimal) (p : ℕ)
        → ShapePairs calls acc
        → Makes (SomePairs (n + count_pairs acc)) (decode_pairs calls bytes decode n acc p)
    unfolding decode_pairs
    decode_pairs-Makes zero acc p s = made (omega arith, s)
    decode_pairs-Makes (suc n) acc p s =
        Makes-bind _ (decode_key-Makes bytes valid small p) (λ k q h.
          Makes-bind _ (inner q) (λ v r t.
            let more = count_pairs-hash_aset calls k v s in
            Makes-map
              (decode_pairs-Makes n (hash_aset k v acc) r
                (hash_aset-ShapePairs calls k v (omega arith) t s))
              (λ ps r' x. (omega arith, x.1))))

    indef_items-Makes :
        (rounds p : ℕ) → Makes (SomeItems rounds) (indef_items calls bytes decode rounds p)
    unfolding indef_items count_items
    indef_items-Makes zero p = starved
    indef_items-Makes (suc rounds) p = dec_peek-Makes bytes valid small p _ (λ b lt.
        Makes-if (b == 0xff) (λ e. made (omega arith, ShapeItems.no_items))
          (λ e. Makes-bind _ (inner p) (λ v q s.
            Makes-bind _ (indef_items-Makes rounds q)
              (λ vs r h. made (omega arith, ShapeItems.item s (h.1))))))

    indef_pairs-Makes :
        (rounds : ℕ) (acc : Pairs Time Decimal) (p : ℕ)
        → ShapePairs calls acc
        → Makes (SomePairs (rounds + count_pairs acc)) (indef_pairs calls bytes decode rounds acc p)
    unfolding indef_pairs
    indef_pairs-Makes zero acc p s = starved
    indef_pairs-Makes (suc rounds) acc p s = dec_peek-Makes bytes valid small p _ (λ b lt.
        Makes-if (b == 0xff) (λ e. made (omega arith, s))
          (λ e. Makes-bind _ (decode_key-Makes bytes valid small p) (λ k q h.
            Makes-bind _ (inner q) (λ v r t.
              let more = count_pairs-hash_aset calls k v s in
              Makes-map
                (indef_pairs-Makes rounds (hash_aset k v acc) r
                  (hash_aset-ShapePairs calls k v (omega arith) t s))
                (λ ps r' x. (omega arith, x.1))))))

    decode_array_raw-Makes : (p : ℕ) → Makes (IsShape calls) (decode_array_raw calls bytes decode p)
    unfolding decode_array_raw
    decode_array_raw-Makes p = head-Makes bytes valid small p _ (λ info n q v le hq.
        Makes-if (calls.ary_capa n)
          (λ e.
            then_ok-Makes array (decode_items-Makes n q)
              (λ vs r h. Shape.array (omega arith) (rw (h.0) e) (h.1)))
          (λ e. refused))

    decode_map_raw-Makes : (p : ℕ) → Makes (IsShape calls) (decode_map_raw calls bytes decode p)
    unfolding decode_map_raw count_pairs
    decode_map_raw-Makes p = head-Makes bytes valid small p _ (λ info n q v le hq.
        Makes-if (calls.hash_capa n)
          (λ e.
            then_ok-Makes hash (decode_pairs-Makes n Pairs.no_pairs q ShapePairs.no_pairs)
              (λ ps r h.
                Shape.hash (omega arith) (roomy.smaller (count_pairs ps) n (omega arith) e) (h.1)))
          (λ e. refused))

    decode_tagged-Makes :
        (tag p : ℕ) → tag < 2 ^ 64 → Makes (IsShape calls) (decode_tagged calls bytes decode tag p)
    unfolding decode_tagged
    decode_tagged-Makes tag p small_tag =
        Makes-if (tag == 1)
          (λ e.
            Makes-bind _ (inner p)
              (λ v q s. from_ruby-Makes (calls.time_at v) _ (λ t. made (Shape.time t))))
          (λ e₁.
            Makes-if (tag == 2 || tag == 3)
              (λ e.
                then_ok-Makes int (decode_bignum_raw-Makes bytes valid small p tag)
                  (λ z q h. Shape.int z h))
              (λ e₂.
                Makes-if (tag == 4) (λ e. decode_bigdec_raw-Makes calls bytes valid small p)
                  (λ e₃.
                    then_ok-Makes (tagged tag) (inner p)
                      (λ v q s. Shape.tagged tag (untaken e₁ e₂ e₃) small_tag s))))
      where
        untaken :
            (tag == 1) ≡ false → (tag == 2 || tag == 3) ≡ false → (tag == 4) ≡ false → Untaken tag
        untaken e₁ e₂ e₃ = elim (Bool-cases (tag == 0)) [
          | inl e ↦ inl (ground arith)
          | inr e ↦ inr (ground arith)
        ]

    decode_tag_raw-Makes : (p : ℕ) → Makes (IsShape calls) (decode_tag_raw calls bytes decode p)
    unfolding decode_tag_raw
    decode_tag_raw-Makes p =
        head-Makes bytes valid small p _ (λ info tag q v le hq. decode_tagged-Makes tag q v)

    indef_array-Makes : (p : ℕ) → Makes (IsShape calls) (decode_indef_array calls bytes decode p)
    unfolding decode_indef_array
    indef_array-Makes p =
        then_ok-Makes array (indef_items-Makes (suc (length bytes)) (p + 1))
          (λ vs r h. Shape.array (omega arith) (roomy.arrays (count_items vs) (omega arith)) (h.1))

    indef_map-Makes : (p : ℕ) → Makes (IsShape calls) (decode_indef_map calls bytes decode p)
    unfolding decode_indef_map count_pairs
    indef_map-Makes p =
        then_ok-Makes hash
          (indef_pairs-Makes (suc (length bytes)) Pairs.no_pairs (p + 1) ShapePairs.no_pairs)
          (λ ps r h. Shape.hash (omega arith) (roomy.hashes (count_pairs ps) (omega arith)) (h.1))

    decode_major-Makes :
        (p major ai : ℕ) → Makes (IsShape calls) (decode_major calls bytes decode p major ai)
    unfolding decode_major decode_binary_raw
    decode_major-Makes p major ai =
        Makes-if (major == 0 && ltb ai 24) (λ e. made (Shape.int _ (short _ (ground arith))))
          (λ e.
            Makes-if (major == 1 && ltb ai 24) (λ e. made (Shape.int _ (short _ (ground arith))))
              (λ e.
                Makes-if (major == 0 || major == 1)
                  (λ e.
                    then_ok-Makes int (decode_integer_raw-Makes bytes valid small p)
                      (λ z q h. Shape.int z h))
                  (λ e.
                    Makes-if (major == 2 && ai == 31)
                      (λ e.
                        then_ok-Makes _ (decode_indef_string-Makes bytes valid small p)
                          (λ bs q h. Shape.binary bs (omega arith)))
                      (λ e.
                        Makes-if (major == 2)
                          (λ e.
                            then_ok-Makes _ (read_chunk-Makes bytes valid small p)
                              (λ bs q h. Shape.binary bs (omega arith)))
                          (λ e.
                            Makes-if (major == 3 && ai == 31)
                              (λ e.
                                then_ok-Makes _ (decode_indef_string-Makes bytes valid small p)
                                  (λ bs q h. Shape.utf8 bs (omega arith)))
                              (λ e.
                                Makes-if (major == 3)
                                  (λ e.
                                    then_ok-Makes _ (decode_text_raw-Makes bytes valid small p)
                                      (λ bs q h. Shape.utf8 bs (omega arith)))
                                  (λ e.
                                    Makes-if (major == 4 && ai == 31) (λ e. indef_array-Makes p)
                                      (λ e.
                                        Makes-if (major == 4) (λ e. decode_array_raw-Makes p)
                                          (λ e.
                                            Makes-if (major == 5 && ai == 31)
                                              (λ e. indef_map-Makes p)
                                              (λ e.
                                                Makes-if (major == 5) (λ e. decode_map_raw-Makes p)
                                                  (λ e.
                                                    Makes-if (major == 6)
                                                      (λ e. decode_tag_raw-Makes p)
                                                      (λ e.
                                                        Makes-if (major == 7)
                                                          (λ e.
                                                            decode_simple-Makes calls bytes valid
                                                            small p ai)
                                                          (λ e. panics)))))))))))))

  pub decode_value-Makes : (f p : ℕ) → Makes (IsShape calls) (decode_value calls f bytes p)
  unfolding decode_value decode_item
  decode_value-Makes zero p = starved
  decode_value-Makes (suc f) p =
      Makes-if (leb (length bytes) p) (λ e. refused)
        (λ e.
          decode_major-Makes (λ q. decode_value calls f bytes q) (λ q. decode_value-Makes f q) p _
            _)
