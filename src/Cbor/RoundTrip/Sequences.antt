-- ===== src/Cbor/RoundTrip/Sequences.antt =====
-- The contents of arrays and hashes: items in order, and pairs set one after the other.
use aws_crt.Prelude.{
  ℕ, ◌+◌, ◌*◌, ◌^◌, ◌<◌, ◌≡◌, refl, ap, ◌∙◌, List, [], ◌++◌, arith, length, length-append,
  append_assoc, append-nil,
}
use aws_crt.Cbor.Value.{
  Value, Items, Pairs, no_items, item, no_pairs, pair, count_items, count_pairs, hash_aset, str,
  symbol, binary, utf8, other_encoding,
}
use aws_crt.Cbor.Result.{ok, done}
use aws_crt.Cbor.Calls.{Calls}
use aws_crt.Cbor.Encode.{
  write_head, encode_value, encode_items, encode_pairs, encode_string, encode_text,
}
use aws_crt.Cbor.Head.Position.{At, At-after}
use aws_crt.Cbor.Head.RoundTrip.{head, write_head-head}
use aws_crt.Cbor.Read.{decode_key}
use aws_crt.Cbor.Read.FastPath.{decode_key-decode_text_raw, decode_text_raw-read_chunk}
use aws_crt.Cbor.Decode.{decode_value, decode_items, decode_pairs}
use aws_crt.Cbor.View.{Key}
use aws_crt.Cbor.RoundTrip.Items.{read_chunk-head}
use aws_crt.Cbor.RoundTrip.Scalars.{Trip}

module _ {Time Decimal : Type 0} (calls : Calls Time Decimal) where
  -- The items are written as bytes that the array's loop reads.
  pub record TripItems (xs ys : Items Time Decimal) : Type 0 where
    pub written : List ℕ
    pub writes : (buf : List ℕ) → encode_items calls xs buf ≡ done (buf ++ written)
    pub reads :
        (bytes : List ℕ) (p f : ℕ) (rest : List ℕ)
        → At bytes p (written ++ rest)
        → length written < f
        → decode_items calls bytes (λ q. decode_value calls f bytes q) (count_items xs) p
          ≡ ok (ys, p + length written)

  pub record TripPairs (ps acc out : Pairs Time Decimal) : Type 0 where
    pub written : List ℕ
    pub writes : (buf : List ℕ) → encode_pairs calls ps buf ≡ done (buf ++ written)
    pub reads :
        (bytes : List ℕ) (p f : ℕ) (rest : List ℕ)
        → At bytes p (written ++ rest)
        → length written < f
        → decode_pairs calls bytes (λ q. decode_value calls f bytes q) (count_pairs ps) acc p
          ≡ ok (out, p + length written)

  pub no_items-Trip : TripItems no_items no_items
  unfolding encode_items decode_items count_items
  no_items-Trip = record {
    written = [];
    writes = λ buf. rw append-nil;
    reads = λ bytes p f rest a hf. ap (λ (q : ℕ). ok (Items.no_items, q)) (omega arith);
  }

  pub item-Trip :
      {v w : Value Time Decimal} {xs ys : Items Time Decimal}
      → Trip calls v w
      → TripItems xs ys
      → TripItems (item v xs) (item w ys)
  unfolding encode_items decode_items count_items
  item-Trip {v} {w} {xs} {ys} t ts = record {
    written = t.written ++ ts.written;
    writes = λ buf. rw (t.writes buf) (rw (ts.writes (buf ++ t.written)) (rw append_assoc));
    reads = λ bytes p f rest a hf.
        let len = length-append t.written ts.written in
        let a' : At bytes p (t.written ++ (ts.written ++ rest)) = rw append_assoc at a in
        rw (t.reads bytes p f (ts.written ++ rest) a' (omega (arith, len))) (
          rw
            (ts.reads bytes (p + length t.written) f rest
              (At-after t.written (ts.written ++ rest) a') (omega (arith, len)))
            (ap (λ (q : ℕ). ok (item w ys, q)) (omega (arith, len))));
  }

  pub no_pairs-Trip : {acc out : Pairs Time Decimal} → acc ≡ out → TripPairs no_pairs acc out
  unfolding encode_pairs decode_pairs count_pairs
  no_pairs-Trip {out = out} e = record {
    written = [];
    writes = λ buf. rw append-nil;
    reads = λ bytes p f rest a hf. rw e (ap (λ (q : ℕ). ok (out, q)) (omega arith));
  }

  -- A key is written as a string of either kind, and read as a text.
  pub record TripKey (k : Value Time Decimal) (bs : List ℕ) : Type 0 where
    pub written : List ℕ
    pub writes : (buf : List ℕ) → encode_value calls k buf ≡ done (buf ++ written)
    pub reads :
        (bytes : List ℕ) (p : ℕ) (rest : List ℕ)
        → At bytes p (written ++ rest)
        → decode_key bytes p ≡ ok (bs, p + length written)

  key_of_major :
      (k : Value Time Decimal) (m : ℕ) (bs : List ℕ)
      → m < 8
      → length bs < 2 ^ 64
      → ((buf : List ℕ)
          → encode_value calls k buf ≡ done (write_head buf (m * 32) (length bs) ++ bs))
      → TripKey k bs
  key_of_major k m bs hm h writes = record {
    written = head m (length bs) ++ bs;
    writes =
        λ buf. writes buf ∙ ap done (rw (write_head-head buf m (length bs) hm h) (rw append_assoc));
    reads = λ bytes p rest a.
        decode_key-decode_text_raw bytes p
        ∙ decode_text_raw-read_chunk bytes p a.small
        ∙ read_chunk-head m bs rest hm h a;
  }

  pub Key-Trip : {k : Value Time Decimal} {bs : List ℕ} → Key k bs → TripKey k bs
  unfolding encode_value encode_string encode_text
  Key-Trip (Key.str binary bs h) = key_of_major (str binary bs) 2 bs (omega arith) h (λ buf. refl)
  Key-Trip (Key.str utf8 bs h) = key_of_major (str utf8 bs) 3 bs (omega arith) h (λ buf. refl)
  Key-Trip (Key.str (other_encoding i) bs h) =
      key_of_major (str (other_encoding i) bs) 3 bs (omega arith) h (λ buf. refl)
  Key-Trip (Key.symbol bs h) = key_of_major (symbol bs) 3 bs (omega arith) h (λ buf. refl)

  pub pair-Trip :
      {k v w : Value Time Decimal} {bs : List ℕ} {ps acc out : Pairs Time Decimal}
      → TripKey k bs
      → Trip calls v w
      → TripPairs ps (hash_aset bs w acc) out
      → TripPairs (pair k v ps) acc out
  unfolding encode_pairs decode_pairs count_pairs
  pair-Trip {out = out} tk t ts = record {
    written = tk.written ++ (t.written ++ ts.written);
    writes = λ buf. rw (tk.writes buf) (
        rw (t.writes (buf ++ tk.written))
          (rw (ts.writes ((buf ++ tk.written) ++ t.written)) (simp append_assoc)));
    reads = λ bytes p f rest a hf.
        let len = length-append tk.written (t.written ++ ts.written) in
        let len' = length-append t.written ts.written in
        let a1 : At bytes p (tk.written ++ ((t.written ++ ts.written) ++ rest)) =
          rw append_assoc at a in
        let a2 : At bytes (p + length tk.written) (t.written ++ (ts.written ++ rest)) =
          rw append_assoc at (At-after tk.written ((t.written ++ ts.written) ++ rest) a1) in
        let a3 = At-after t.written (ts.written ++ rest) a2 in
        rw (tk.reads bytes p _ a1) (
          rw (t.reads bytes (p + length tk.written) f _ a2 (omega (arith, len, len'))) (
            rw
              (ts.reads bytes (p + length tk.written + length t.written) f rest a3
                (omega (arith, len, len')))
              (ap (λ (q : ℕ). ok (out, q)) (omega (arith, len, len')))));
  }
