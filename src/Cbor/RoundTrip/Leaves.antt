-- ===== src/Cbor/RoundTrip/Leaves.antt =====
-- The round trip of each value that holds no other: constants, floats, strings, times and decimals.
use aws_crt.Prelude.{
  ℕ, zero, suc, ◌+◌, ◌^◌, ◌<◌, ◌≡◌, refl, ap, ◌∙◌, Bool, true, false, inl, inr, Bool-cases, List,
  [], ◌∷◌, ◌++◌, arith, length, length-append, append_assoc, to_be,
}
use aws_crt.Cbor.Value.{
  Value, Encoding, binary, utf8, other_encoding, nil, bool, float, str, symbol, time,
}
use aws_crt.Cbor.Result.{ok, done}
use aws_crt.Cbor.Calls.{Calls}
use aws_crt.Cbor.Float.{is_nan, same_float, narrow, widen}
use aws_crt.Cbor.Float.Bounds.{narrow_bound, widen-narrow}
use aws_crt.Cbor.Encode.{
  write_head, encode_auto_float, encode_double, encode_string, encode_text, encode_value,
}
use aws_crt.Cbor.Head.Position.{At, At-after}
use aws_crt.Cbor.Head.RoundTrip.{head, write_head-head}
use aws_crt.Cbor.Decode.{decode_value, decode_major, decode_simple, decode_tagged}
use aws_crt.Cbor.View.{text_encoding}
use aws_crt.Cbor.RoundTrip.Items.{decode_value-tag}
use aws_crt.Cbor.RoundTrip.Scalars.{
  Reads, Trip, simple-Reads, double-Reads, single-Reads, text-Reads, binary-Reads,
}

module _ {Time Decimal : Type 0} (calls : Calls Time Decimal) where
  pub nil-Trip : Trip calls nil nil
  unfolding encode_value write_head
  nil-Trip = record {
    written = 0xf6 ∷ [];
    writes = λ buf. refl;
    nonempty = omega arith;
    reads =
        simple-Reads calls 0xf6 nil (omega arith)
          (λ bytes p g. unfold decode_major decode_simple in refl);
  }

  pub bool-Trip : (b : Bool) → Trip calls (bool b) (bool b)
  unfolding encode_value write_head
  bool-Trip true = record {
    written = 0xf5 ∷ [];
    writes = λ buf. refl;
    nonempty = omega arith;
    reads =
        simple-Reads calls 0xf5 (bool true) (omega arith)
          (λ bytes p g. unfold decode_major decode_simple in refl);
  }
  bool-Trip false = record {
    written = 0xf4 ∷ [];
    writes = λ buf. refl;
    nonempty = omega arith;
    reads =
        simple-Reads calls 0xf4 (bool false) (omega arith)
          (λ bytes p g. unfold decode_major decode_simple in refl);
  }

  -- What encode_auto_float writes for a float that is no NaN reads as that float.
  single-Trip :
      (f : ℕ) (w : ℕ)
      → f < 2 ^ 64
      → widen (narrow f) ≡ w
      → ((buf : List ℕ) → encode_auto_float buf f ≡ buf ++ (0xfa ∷ to_be 4 (narrow f)))
      → Trip calls (float f) (float w)
  unfolding encode_value
  single-Trip f w h e writes = record {
    written = 0xfa ∷ to_be 4 (narrow f);
    writes = λ buf. rw (writes buf);
    nonempty = omega arith;
    reads = rw e at (single-Reads calls (narrow f) (narrow_bound f h));
  }

  pub nan-Trip :
      (f : ℕ) → f < 2 ^ 64 → is_nan f ≡ true → Trip calls (float f) (float (widen (narrow f)))
  unfolding encode_auto_float
  nan-Trip f h e = single-Trip f _ h refl (λ buf. rw e (rw append_assoc))

  pub float-Trip : (f : ℕ) → f < 2 ^ 64 → is_nan f ≡ false → Trip calls (float f) (float f)
  unfolding encode_auto_float encode_value
  float-Trip f h e = elim (Bool-cases (same_float (widen (narrow f)) f)) [
    | inl same ↦ single-Trip f f h (widen-narrow f h same) (λ buf. rw same (rw e (rw append_assoc)))
    | inr differ ↦ record {
      written = 0xfb ∷ to_be 8 f;
      writes = λ buf. rw differ (rw e (rw append_assoc));
      nonempty = omega arith;
      reads = double-Reads calls f h;
    }
  ]

  text_bytes-Trip :
      (v : Value Time Decimal) (bs : List ℕ)
      → length bs < 2 ^ 64
      → ((buf : List ℕ) → encode_value calls v buf ≡ done (write_head buf 0x60 (length bs) ++ bs))
      → Trip calls v (str utf8 bs)
  text_bytes-Trip v bs h writes = record {
    written = head 3 (length bs) ++ bs;
    writes = λ buf.
        writes buf
        ∙ ap done (rw (write_head-head buf 3 (length bs) (omega arith) h) (rw append_assoc));
    nonempty = omega arith;
    reads = text-Reads calls bs h;
  }

  pub str-Trip :
      (enc : Encoding) (bs : List ℕ)
      → length bs < 2 ^ 64
      → Trip calls (str enc bs) (str (text_encoding enc) bs)
  unfolding encode_value encode_string
  str-Trip binary bs h = record {
    written = head 2 (length bs) ++ bs;
    writes = λ buf. rw (write_head-head buf 2 (length bs) (omega arith) h) (rw append_assoc);
    nonempty = omega arith;
    reads = binary-Reads calls bs h;
  }
  str-Trip utf8 bs h = text_bytes-Trip (str utf8 bs) bs h (λ buf. refl)
  str-Trip (other_encoding i) bs h = text_bytes-Trip (str (other_encoding i) bs) bs h (λ buf. refl)

  pub symbol-Trip : (bs : List ℕ) → length bs < 2 ^ 64 → Trip calls (symbol bs) (str utf8 bs)
  unfolding encode_value encode_text
  symbol-Trip bs h = text_bytes-Trip (symbol bs) bs h (λ buf. refl)

  -- A value under a tag, by what the match on the tag reads behind it.
  pub tag-Reads :
      (tag : ℕ) (bs : List ℕ) (w : Value Time Decimal)
      → tag < 2 ^ 64
      → ((bytes : List ℕ) (p f : ℕ) (rest : List ℕ)
          → At bytes p (bs ++ rest)
          → length bs < f
          → decode_tagged calls bytes (λ q. decode_value calls f bytes q) tag p
            ≡ ok (w, p + length bs))
      → Reads calls (head 6 tag ++ bs) w
  tag-Reads tag bs w h inner bytes p zero rest a hf = absurd (omega arith)
  tag-Reads tag bs w h inner bytes p (suc f) rest a hf =
      let a' : At bytes p (head 6 tag ++ (bs ++ rest)) = rw append_assoc at a in
      let len = length-append (head 6 tag) bs in
      decode_value-tag calls f tag (bs ++ rest) h a'
      ∙ inner bytes (p + length (head 6 tag)) f rest (At-after (head 6 tag) (bs ++ rest) a')
          (omega (arith, len))
      ∙ ap (λ (q : ℕ). ok (w, q)) (omega (arith, len))

  pub time-Trip :
      (t t' : Time)
      → calls.to_f t < 2 ^ 64
      → calls.time_at (float (calls.to_f t)) ≡ inr t'
      → Trip calls (time t) (time t')
  unfolding encode_value encode_double decode_tagged
  time-Trip t t' h e = record {
    written = head 6 1 ++ (0xfb ∷ to_be 8 (calls.to_f t));
    writes = λ buf. rw (write_head-head buf 6 1 (omega arith) (omega arith)) (simp append_assoc);
    nonempty = omega arith;
    reads =
        tag-Reads 1 (0xfb ∷ to_be 8 (calls.to_f t)) (time t') (omega arith) (λ bytes p f rest a hf.
          rw (double-Reads calls (calls.to_f t) h bytes p f rest a hf) (rw e));
  }
