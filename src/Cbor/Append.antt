-- ===== src/Cbor/Append.antt =====
-- The encoder of ext/aws_crt/src/cbor.rs only appends: what stands in the buffer before does not
-- matter, for a value that is written whole and for one that stops with an error.
use aws_crt.Prelude.{
  Bool, List, [], ap, append-nil, append_assoc, false, if◌then◌else◌, leb, length, ltb, refl, true,
  ℕ, ◌++◌, ◌^◌, ◌∙◌, ◌≡◌,
}
use aws_crt.Prelude.Int.{negsuc, pos, ℤ, ◌*ℤ◌, ◌-ℤ◌}
use aws_crt.Cbor.Value.{
  Encoding, Items, Pairs, Value, array, binary, bool, count_items, count_pairs, decimal, float,
  hash, int, item, nil, no_items, no_pairs, object, other_encoding, pair, str, symbol, tagged, time,
  utf8,
}
use aws_crt.Cbor.Calls.{Calls, DecimalParts, finite, infinite, not_a_number}
use aws_crt.Cbor.Result.{Error, Result, Written, and_then, done, err, failed, ok}
use aws_crt.Cbor.Float.{is_nan, narrow, same_float, widen}
use aws_crt.Cbor.Encode.{
  encode_auto_float, encode_big_decimal, encode_double, encode_integer, encode_items, encode_pairs,
  encode_ruby_bignum, encode_string, encode_tagged_bytes, encode_text, encode_value, is_fixnum,
  major_array, major_bytes, major_map, major_simple, major_tag, parse_i128, tag_bigdec, tag_epoch,
  write_head,
}
use aws_crt.Cbor.Api.{Added, Encoder, add_raised, added, encode, encoder_add}

-- A writer whose work does not depend on what the buffer starts with.
record Appends (f : List ℕ → List ℕ) : Type 0 where
  pub law : (a b : List ℕ) → f (a ++ b) ≡ a ++ f b

ends : (xs : List ℕ) → Appends (λ buf. buf ++ xs)
ends xs = record { law = λ a b. append_assoc a b xs }

behind : {f : List ℕ → List ℕ} (xs : List ℕ) → Appends f → Appends (λ buf. f buf ++ xs)
behind {f = f} xs h = record {
  law = λ a b. ap (λ l. l ++ xs) (h.law a b) ∙ append_assoc a (f b) xs;
}

after : {f g : List ℕ → List ℕ} → Appends f → Appends g → Appends (λ buf. g (f buf))
after {f = f} {g = g} h k = record { law = λ a b. ap g (h.law a b) ∙ k.law a (f b) }

choose :
    {f g : List ℕ → List ℕ} (c : Bool)
    → Appends f
    → Appends g
    → Appends (λ buf. if c then f buf else g buf)
choose true h k = h
choose false h k = k

write_head-Appends : (m v : ℕ) → Appends (λ buf. write_head buf m v)
unfolding write_head
write_head-Appends m v = choose (leb v 23) (ends _) (
    choose (leb v 0xff) (behind _ (ends _)) (
      choose (leb v 0xffff) (behind _ (ends _))
        (choose (leb v 0xffff_ffff) (behind _ (ends _)) (behind _ (ends _)))))

encode_integer-Appends : (z : ℤ) → Appends (λ buf. encode_integer buf z)
unfolding encode_integer
encode_integer-Appends (pos n) = write_head-Appends _ _
encode_integer-Appends (negsuc n) = write_head-Appends _ _

encode_text-Appends : (bytes : List ℕ) → Appends (λ buf. encode_text buf bytes)
unfolding encode_text
encode_text-Appends bytes = behind bytes (write_head-Appends _ _)

encode_double-Appends : (v : ℕ) → Appends (λ buf. encode_double buf v)
unfolding encode_double
encode_double-Appends v = behind _ (ends _)

encode_auto_float-Appends : (v : ℕ) → Appends (λ buf. encode_auto_float buf v)
unfolding encode_auto_float
encode_auto_float-Appends v =
    choose (is_nan v) (behind _ (ends _))
      (choose (same_float (widen (narrow v)) v) (behind _ (ends _)) (behind _ (ends _)))

tagged_bytes-Appends :
    (tag : ℕ) (bytes : List ℕ) → Appends (λ buf. encode_tagged_bytes buf tag bytes)
unfolding encode_tagged_bytes
tagged_bytes-Appends tag bytes =
    behind bytes
      (after (write_head-Appends major_tag tag) (write_head-Appends major_bytes (length bytes)))

bignum-Appends : (z : ℤ) → Appends (λ buf. encode_ruby_bignum buf z)
unfolding encode_ruby_bignum
bignum-Appends (pos n) =
    choose (ltb n (2 ^ 63)) (encode_integer-Appends (pos n))
      (choose (ltb n (2 ^ 64)) (write_head-Appends _ _) (tagged_bytes-Appends _ _))
bignum-Appends (negsuc n) =
    choose (ltb n (2 ^ 63)) (encode_integer-Appends (negsuc n)) (tagged_bytes-Appends _ _)

big_decimal-Appends : (parts : DecimalParts) → Appends (λ buf. encode_big_decimal buf parts)
unfolding encode_big_decimal
big_decimal-Appends (infinite (pos n)) = encode_auto_float-Appends _
big_decimal-Appends (infinite (negsuc n)) = encode_auto_float-Appends _
big_decimal-Appends not_a_number = encode_auto_float-Appends _
big_decimal-Appends (finite sign digits e) =
    after
      (after (after (write_head-Appends major_tag tag_bigdec) (write_head-Appends major_array 2))
        (encode_integer-Appends (e -ℤ pos (length digits))))
      (encode_integer-Appends (pos (parse_i128 digits) *ℤ sign))

encode_string-Appends : (enc : Encoding) (bytes : List ℕ) → Appends (encode_string enc bytes)
unfolding encode_string
encode_string-Appends binary bytes = behind bytes (write_head-Appends _ _)
encode_string-Appends utf8 bytes = behind bytes (write_head-Appends _ _)
encode_string-Appends (other_encoding i) bytes = behind bytes (write_head-Appends _ _)

-- The same writing behind other bytes.
abbrev pub prepend : List ℕ → Written → Written
prepend a (done buf) = done (a ++ buf)
prepend a (failed buf e) = failed (a ++ buf) e

record Extends (f : List ℕ → Written) : Type 0 where
  pub law : (a b : List ℕ) → f (a ++ b) ≡ prepend a (f b)

wrote : {f : List ℕ → List ℕ} → Appends f → Extends (λ buf. done (f buf))
wrote h = record { law = λ a b. ap done (h.law a b) }

first :
    {f : List ℕ → List ℕ} {g : List ℕ → Written}
    → Appends f
    → Extends g
    → Extends (λ buf. g (f buf))
first {f = f} {g = g} h k = record { law = λ a b. ap g (h.law a b) ∙ k.law a (f b) }

and_then-prepend :
    (w : Written) {g : List ℕ → Written} (a : List ℕ)
    → Extends g
    → and_then (prepend a w) g ≡ prepend a (and_then w g)
and_then-prepend (done buf) a k = k.law a buf
and_then-prepend (failed buf e) a k = refl

in_turn : {f g : List ℕ → Written} → Extends f → Extends g → Extends (λ buf. and_then (f buf) g)
in_turn {f = f} {g = g} h k = record {
  law = λ a b. ap (λ w. and_then w g) (h.law a b) ∙ and_then-prepend (f b) a k;
}

module _ {Time Decimal : Type 0} (calls : Calls Time Decimal) where
  mutual
    unfolding encode_value

    value-Extends : (v : Value Time Decimal) → Extends (encode_value calls v)
    value-Extends nil = wrote (write_head-Appends major_simple 22)
    value-Extends (bool true) = wrote (write_head-Appends major_simple 21)
    value-Extends (bool false) = wrote (write_head-Appends major_simple 20)
    value-Extends (int z) =
        wrote (choose (is_fixnum z) (encode_integer-Appends z) (bignum-Appends z))
    value-Extends (float f) = wrote (encode_auto_float-Appends f)
    value-Extends (str enc bytes) = wrote (encode_string-Appends enc bytes)
    value-Extends (array vs) =
        first (write_head-Appends major_array (count_items vs)) (items-Extends vs)
    value-Extends (hash ps) =
        first (write_head-Appends major_map (count_pairs ps)) (pairs-Extends ps)
    value-Extends (symbol bytes) = wrote (encode_text-Appends bytes)
    value-Extends (tagged tag v) = first (write_head-Appends major_tag tag) (value-Extends v)
    value-Extends (time t) =
        wrote
          (after (write_head-Appends major_tag tag_epoch) (encode_double-Appends (calls.to_f t)))
    value-Extends (decimal d) = wrote (big_decimal-Appends (calls.parts d))
    value-Extends (object type class) = record { law = λ a b. refl }

    items-Extends : (vs : Items Time Decimal) → Extends (encode_items calls vs)
    items-Extends no_items = record { law = λ a b. refl }
    items-Extends (item v vs) = in_turn (value-Extends v) (items-Extends vs)

    pairs-Extends : (ps : Pairs Time Decimal) → Extends (encode_pairs calls ps)
    pairs-Extends no_pairs = record { law = λ a b. refl }
    pairs-Extends (pair k v ps) =
        in_turn (value-Extends k) (in_turn (value-Extends v) (pairs-Extends ps))

  value-prepend :
      (v : Value Time Decimal) (a : List ℕ)
      → encode_value calls v a ≡ prepend a (encode_value calls v [])
  value-prepend v a = rw append-nil at ((value-Extends v).law a [])

  -- How Encoder#add and encode end on the same value: in the second case bs is what was written before
  -- the error.
  pub data Agreement (e : Encoder) : Result (List ℕ) → Added → Type 0 where
    both_done : (bs : List ℕ) → Agreement e (ok bs) (added (record { buf = e.buf ++ bs }))
    both_failed :
        (bs : List ℕ) {x : Error}
        → Agreement e (err x) (add_raised (record { buf = e.buf ++ bs }) x)

  settled-Agreement :
      (e : Encoder) (v : Value Time Decimal) (w : Written)
      → encode_value calls v [] ≡ w
      → encode_value calls v (e.buf) ≡ prepend (e.buf) w
      → Agreement e (encode calls v) (encoder_add calls e v)
  unfolding encode encoder_add
  settled-Agreement e v (done bs) q r = rw (q, r, encode, encoder_add) (both_done bs)
  settled-Agreement e v (failed bs x) q r = rw (q, r, encode, encoder_add) (both_failed bs)

  -- Encoder#add puts exactly the bytes that encode gives for the value behind what the encoder holds.
  -- A value that encode refuses is refused with the same error; then what the encoder held stays in
  -- front of whatever was written.
  pub encoder_add-Agreement :
      (e : Encoder) (v : Value Time Decimal) → Agreement e (encode calls v) (encoder_add calls e v)
  encoder_add-Agreement e v =
      let h = value-prepend v (e.buf) in settled-Agreement e v (encode_value calls v []) refl h
