-- ===== src/Cbor/Decode/Within.antt =====
-- decode_value ends on every input below 2 ^ 64 bytes and at every position: nesting is no deeper than
-- the bytes that are left, and each round of a loop takes a byte or stops.
use aws_crt.Prelude.{
  ℕ, zero, suc, ◌+◌, ◌^◌, ◌≤◌, ◌<◌, ◌&&◌, ◌||◌, ltb, leb, ◌==◌, List, length, arith, inl, inr,
  String, ◌⊎◌,
}
use aws_crt.Cbor.Value.{Value, Pairs, no_pairs, hash_aset, int, float, array, hash, tagged}
use aws_crt.Cbor.Calls.{Calls}
use aws_crt.Cbor.Result.{Result, ◌>>=◌}
use aws_crt.Cbor.Result.Within.{
  Within, moved, refused, panics, Within-bind, Within-if, Within-weaken,
}
use aws_crt.Cbor.Read.{from_ruby, decode_binary_raw}
use aws_crt.Cbor.Read.Within.{
  head-Within, decode_integer_raw-Within, read_chunk-Within, decode_text_raw-Within,
  decode_key-Within, dec_peek-Within, decode_indef_string-Within, decode_half_raw-Within,
  read_float-Within, decode_bignum_raw-Within, then_ok-Within,
}
use aws_crt.Cbor.Decode.{
  decode_bigdec_raw, decode_simple, decode_items, decode_array_raw, decode_pairs, decode_map_raw,
  indef_items, decode_indef_array, indef_pairs, decode_indef_map, decode_tagged, decode_tag_raw,
  decode_major, decode_item, decode_value,
}

module _ {Time Decimal : Type 0} (calls : Calls Time Decimal) (bytes : List ℕ)
    (small : length bytes < 2 ^ 64) where
  decode_simple-Within :
      (p ai : ℕ) → p < length bytes → Within (p + 1) (length bytes) (decode_simple calls bytes p ai)
  unfolding decode_simple
  decode_simple-Within p ai hp =
      Within-if (ai == 20) (λ e. moved (omega arith) (omega arith))
        (λ e.
          Within-if (ai == 21) (λ e. moved (omega arith) (omega arith))
            (λ e.
              Within-if (ai == 22) (λ e. moved (omega arith) (omega arith))
                (λ e.
                  Within-if (ai == 23) (λ e. moved (omega arith) (omega arith))
                    (λ e.
                      Within-if (ai == 25)
                        (λ e. then_ok-Within float (decode_half_raw-Within bytes small p))
                        (λ e.
                          Within-if (ai == 26)
                            (λ e. then_ok-Within _ (read_float-Within bytes small p 4))
                            (λ e.
                              Within-if (ai == 27)
                                (λ e. then_ok-Within float (read_float-Within bytes small p 8))
                                (λ e. Within-if (ai == 31) (λ e. refused) (λ e. refused))))))))

  from_ruby-Within :
      {A B : Type 0} {lo : ℕ} (r : String ⊎ A) (g : A → Result (B × ℕ))
      → ((a : A) → Within lo (length bytes) (g a))
      → Within lo (length bytes) (from_ruby r >>= g)
  from_ruby-Within (inl m) g f = refused
  from_ruby-Within (inr a) g f = f a

  decode_bigdec_raw-Within :
      (p : ℕ) → p ≤ length bytes → Within (p + 1) (length bytes) (decode_bigdec_raw calls bytes p)
  unfolding decode_bigdec_raw
  decode_bigdec_raw-Within p hp = head-Within bytes small p _ hp (λ info len q h k.
      Within-if (len == 2)
        (λ e. Within-bind _ (decode_integer_raw-Within bytes small q k) (λ x q₁ h₁ k₁.
          Within-bind _ (decode_integer_raw-Within bytes small q₁ k₁)
            (λ m q₂ h₂ k₂. from_ruby-Within (calls.scaled m x) _ (λ d. moved (omega arith) k₂))))
        (λ e. refused))

  -- What decoding a nested item does, one level down.
  module _ (decode : ℕ → Result (Value Time Decimal × ℕ)) (p₀ : ℕ)
      (inner : (q : ℕ) → p₀ < q → q ≤ length bytes → Within (q + 1) (length bytes) (decode q)) where
    decode_items-Within :
        (n p : ℕ)
        → p₀ < p
        → p ≤ length bytes
        → Within p (length bytes) (decode_items calls bytes decode n p)
    unfolding decode_items
    decode_items-Within zero p lo hp = moved (omega arith) hp
    decode_items-Within (suc n) p lo hp = Within-bind _ (inner p lo hp) (λ v q h k.
        Within-bind _ (decode_items-Within n q (omega arith) k)
          (λ vs r h' k'. moved (omega arith) k'))

    decode_pairs-Within :
        (n : ℕ) (acc : Pairs Time Decimal) (p : ℕ)
        → p₀ < p
        → p ≤ length bytes
        → Within p (length bytes) (decode_pairs calls bytes decode n acc p)
    unfolding decode_pairs
    decode_pairs-Within zero acc p lo hp = moved (omega arith) hp
    decode_pairs-Within (suc n) acc p lo hp =
        Within-bind _ (decode_key-Within bytes small p hp) (λ key q h k.
          Within-bind _ (inner q (omega arith) k) (λ v r h' k'.
            Within-weaken {lo = r} (omega arith)
              (decode_pairs-Within n (hash_aset key v acc) r (omega arith) k')))

    indef_items-Within :
        (rounds p : ℕ)
        → p₀ < p
        → p ≤ length bytes
        → length bytes < rounds + p
        → Within p (length bytes) (indef_items calls bytes decode rounds p)
    unfolding indef_items
    indef_items-Within zero p lo hp hr = absurd (omega arith)
    indef_items-Within (suc rounds) p lo hp hr = dec_peek-Within bytes small p _ (λ b lt.
        Within-if (b == 0xff) (λ e. moved (omega arith) (omega arith))
          (λ e. Within-bind _ (inner p lo hp) (λ v q h k.
            Within-bind _ (indef_items-Within rounds q (omega arith) k (omega arith))
              (λ vs r h' k'. moved (omega arith) k'))))

    indef_pairs-Within :
        (rounds : ℕ) (acc : Pairs Time Decimal) (p : ℕ)
        → p₀ < p
        → p ≤ length bytes
        → length bytes < rounds + p
        → Within p (length bytes) (indef_pairs calls bytes decode rounds acc p)
    unfolding indef_pairs
    indef_pairs-Within zero acc p lo hp hr = absurd (omega arith)
    indef_pairs-Within (suc rounds) acc p lo hp hr = dec_peek-Within bytes small p _ (λ b lt.
        Within-if (b == 0xff) (λ e. moved (omega arith) (omega arith))
          (λ e. Within-bind _ (decode_key-Within bytes small p hp) (λ key q h k.
            Within-bind _ (inner q (omega arith) k) (λ v r h' k'.
              Within-weaken {lo = r} (omega arith) (
                indef_pairs-Within rounds (hash_aset key v acc) r (omega arith) k'
                  (omega arith))))))

    decode_array_raw-Within :
        p₀ ≤ length bytes → Within (p₀ + 1) (length bytes) (decode_array_raw calls bytes decode p₀)
    unfolding decode_array_raw
    decode_array_raw-Within hp = head-Within bytes small p₀ _ hp (λ info n q h k.
        Within-if (calls.ary_capa n)
          (λ e. then_ok-Within array (Within-weaken h (decode_items-Within n q (omega arith) k)))
          (λ e. refused))

    decode_map_raw-Within :
        p₀ ≤ length bytes → Within (p₀ + 1) (length bytes) (decode_map_raw calls bytes decode p₀)
    unfolding decode_map_raw
    decode_map_raw-Within hp = head-Within bytes small p₀ _ hp (λ info n q h k.
        Within-if (calls.hash_capa n)
          (λ e.
            then_ok-Within hash
              (Within-weaken h (decode_pairs-Within n no_pairs q (omega arith) k)))
          (λ e. refused))

    decode_tagged-Within :
        (tag p : ℕ)
        → p₀ + 1 ≤ p
        → p ≤ length bytes
        → Within (p₀ + 1) (length bytes) (decode_tagged calls bytes decode tag p)
    unfolding decode_tagged
    decode_tagged-Within tag p lo hp =
        Within-if (tag == 1)
          (λ e.
            Within-bind _ (inner p (omega arith) hp)
              (λ v q h k. from_ruby-Within (calls.time_at v) _ (λ t. moved (omega arith) k)))
          (λ e.
            Within-if (tag == 2 || tag == 3)
              (λ e. then_ok-Within int (
                Within-weaken {lo = p + 1} (omega arith)
                  (decode_bignum_raw-Within bytes small p tag hp)))
              (λ e.
                Within-if (tag == 4)
                  (λ e. Within-weaken {lo = p + 1} (omega arith) (decode_bigdec_raw-Within p hp))
                  (λ e.
                    then_ok-Within (tagged tag)
                      (Within-weaken {lo = p + 1} (omega arith) (inner p (omega arith) hp)))))

    decode_tag_raw-Within :
        p₀ ≤ length bytes → Within (p₀ + 1) (length bytes) (decode_tag_raw calls bytes decode p₀)
    unfolding decode_tag_raw
    decode_tag_raw-Within hp =
        head-Within bytes small p₀ _ hp (λ info tag q h k. decode_tagged-Within tag q h k)

    decode_major-Within :
        (major ai : ℕ)
        → p₀ < length bytes
        → Within (p₀ + 1) (length bytes) (decode_major calls bytes decode p₀ major ai)
    unfolding decode_major decode_binary_raw decode_indef_array decode_indef_map
    decode_major-Within major ai lt =
        let hp : p₀ ≤ length bytes = omega arith in
        Within-if (major == 0 && ltb ai 24) (λ e. moved (omega arith) (omega arith))
          (λ e.
            Within-if (major == 1 && ltb ai 24) (λ e. moved (omega arith) (omega arith))
              (λ e.
                Within-if (major == 0 || major == 1)
                  (λ e. then_ok-Within int (decode_integer_raw-Within bytes small p₀ hp))
                  (λ e.
                    Within-if (major == 2 && ai == 31)
                      (λ e. then_ok-Within _ (decode_indef_string-Within bytes small p₀ lt))
                      (λ e.
                        Within-if (major == 2)
                          (λ e. then_ok-Within _ (read_chunk-Within bytes small p₀ hp))
                          (λ e.
                            Within-if (major == 3 && ai == 31)
                              (λ e. then_ok-Within _ (decode_indef_string-Within bytes small p₀ lt))
                              (λ e.
                                Within-if (major == 3)
                                  (λ e. then_ok-Within _ (decode_text_raw-Within bytes small p₀ hp))
                                  (λ e.
                                    Within-if (major == 4 && ai == 31)
                                      (λ e. then_ok-Within array (
                                        indef_items-Within (suc (length bytes)) (p₀ + 1)
                                          (omega arith) (omega arith) (omega arith)))
                                      (λ e.
                                        Within-if (major == 4) (λ e. decode_array_raw-Within hp)
                                          (λ e.
                                            Within-if (major == 5 && ai == 31)
                                              (λ e. then_ok-Within hash (
                                                indef_pairs-Within (suc (length bytes)) no_pairs
                                                  (p₀ + 1) (omega arith) (omega arith)
                                                  (omega arith)))
                                              (λ e.
                                                Within-if (major == 5)
                                                  (λ e. decode_map_raw-Within hp)
                                                  (λ e.
                                                    Within-if (major == 6)
                                                      (λ e. decode_tag_raw-Within hp)
                                                      (λ e.
                                                        Within-if (major == 7)
                                                          (λ e. decode_simple-Within p₀ ai lt)
                                                          (λ e. panics)))))))))))))

  -- With fuel above the number of bytes that are left, decode_value does not run out of it, and what
  -- it reads ends inside the input and takes one byte at least.
  pub decode_value-Within :
      (f p : ℕ)
      → p ≤ length bytes
      → length bytes < f + p
      → Within (p + 1) (length bytes) (decode_value calls f bytes p)
  unfolding decode_value decode_item
  decode_value-Within zero p hp hf = absurd (omega arith)
  decode_value-Within (suc f) p hp hf =
      Within-if (leb (length bytes) p) (λ e. refused)
        (λ e.
          decode_major-Within (λ q. decode_value calls f bytes q) p
            (λ q lo hq. decode_value-Within f q hq (omega arith)) _ _ (ground arith))
