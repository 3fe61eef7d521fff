-- ===== src/Cbor/RoundTrip/Containers.antt =====
-- Arrays, hashes and tagged values: the round trip of every value that `View` relates to another.
use aws_crt.Prelude.{
  ℕ, zero, suc, ◌+◌, ◌^◌, ◌<◌, ◌≡◌, ◌∙◌, true, List, ◌++◌, arith, length, length-append,
  append_assoc,
}
use aws_crt.Cbor.Value.{
  Value, Items, Pairs, array, hash, tagged, no_pairs, count_items, count_pairs,
}
use aws_crt.Cbor.Result.{ok}
use aws_crt.Cbor.Calls.{Calls}
use aws_crt.Cbor.Encode.{encode_value}
use aws_crt.Cbor.Head.Position.{At, At-after}
use aws_crt.Cbor.Head.RoundTrip.{head, head_info_bound, write_head-head, dec_read_info-head}
use aws_crt.Cbor.Decode.{
  decode_value, decode_major, decode_tagged, decode_array_raw, decode_map_raw,
}
use aws_crt.Cbor.View.{Untaken, View, ViewItems, ViewPairs}
use aws_crt.Cbor.RoundTrip.Items.{dec_read_count-head, decode_value-head}
use aws_crt.Cbor.RoundTrip.Scalars.{Reads, Trip}
use aws_crt.Cbor.RoundTrip.Bignum.{integer-Trip}
use aws_crt.Cbor.RoundTrip.Leaves.{
  nil-Trip, bool-Trip, nan-Trip, float-Trip, str-Trip, symbol-Trip, time-Trip, tag-Reads,
}
use aws_crt.Cbor.RoundTrip.Decimals.{decimal-Trip}
use aws_crt.Cbor.RoundTrip.Sequences.{
  TripItems, TripPairs, no_items-Trip, item-Trip, no_pairs-Trip, Key-Trip, pair-Trip,
}

module _ {Time Decimal : Type 0} (calls : Calls Time Decimal) where
  array-Reads :
      {xs ys : Items Time Decimal}
      → count_items xs < 2 ^ 64
      → calls.ary_capa (count_items xs) ≡ true
      → (t : TripItems calls xs ys) → Reads calls (head 4 (count_items xs) ++ t.written) (array ys)
  unfolding decode_major decode_array_raw
  array-Reads h capa t bytes p zero rest a hf = absurd (omega arith)
  array-Reads {xs} {ys} h capa t bytes p (suc f) rest a hf =
      let n = count_items xs in
      let len = length-append (head 4 n) t.written in
      let a' : At bytes p (head 4 n ++ (t.written ++ rest)) = rw append_assoc at a in
      decode_value-head calls f 4 n (t.written ++ rest) (omega arith) a'
      ∙ ground (
        arith,
        head_info_bound n,
        dec_read_info-head 4 n (t.written ++ rest) (omega arith) a',
        dec_read_count-head 4 n (t.written ++ rest) h a',
        t.reads bytes (p + length (head 4 n)) f rest (At-after (head 4 n) (t.written ++ rest) a'),
        len,
      )

  array-Trip :
      {xs ys : Items Time Decimal}
      → count_items xs < 2 ^ 64
      → calls.ary_capa (count_items xs) ≡ true
      → TripItems calls xs ys
      → Trip calls (array xs) (array ys)
  unfolding encode_value
  array-Trip {xs} {ys} h capa t = record {
    written = head 4 (count_items xs) ++ t.written;
    writes = λ buf.
        rw (write_head-head buf 4 (count_items xs) (omega arith) h)
          (rw (t.writes (buf ++ head 4 (count_items xs))) (rw append_assoc));
    nonempty = omega arith;
    reads = array-Reads h capa t;
  }

  hash-Reads :
      {ps out : Pairs Time Decimal}
      → count_pairs ps < 2 ^ 64
      → calls.hash_capa (count_pairs ps) ≡ true
      → (t : TripPairs calls ps no_pairs out)
      → Reads calls (head 5 (count_pairs ps) ++ t.written) (hash out)
  unfolding decode_major decode_map_raw
  hash-Reads h capa t bytes p zero rest a hf = absurd (omega arith)
  hash-Reads {ps} {out} h capa t bytes p (suc f) rest a hf =
      let n = count_pairs ps in
      let len = length-append (head 5 n) t.written in
      let a' : At bytes p (head 5 n ++ (t.written ++ rest)) = rw append_assoc at a in
      decode_value-head calls f 5 n (t.written ++ rest) (omega arith) a'
      ∙ ground (
        arith,
        head_info_bound n,
        dec_read_info-head 5 n (t.written ++ rest) (omega arith) a',
        dec_read_count-head 5 n (t.written ++ rest) h a',
        t.reads bytes (p + length (head 5 n)) f rest (At-after (head 5 n) (t.written ++ rest) a'),
        len,
      )

  hash-Trip :
      {ps out : Pairs Time Decimal}
      → count_pairs ps < 2 ^ 64
      → calls.hash_capa (count_pairs ps) ≡ true
      → TripPairs calls ps no_pairs out
      → Trip calls (hash ps) (hash out)
  unfolding encode_value
  hash-Trip {ps} h capa t = record {
    written = head 5 (count_pairs ps) ++ t.written;
    writes = λ buf.
        rw (write_head-head buf 5 (count_pairs ps) (omega arith) h)
          (rw (t.writes (buf ++ head 5 (count_pairs ps))) (rw append_assoc));
    nonempty = omega arith;
    reads = hash-Reads h capa t;
  }

  tagged_inner :
      (tag : ℕ) (w : Value Time Decimal) (bytes : List ℕ) (p f n : ℕ)
      → Untaken tag
      → decode_value calls f bytes p ≡ ok (w, p + n)
      → decode_tagged calls bytes (λ q. decode_value calls f bytes q) tag p
        ≡ ok (tagged tag w, p + n)
  unfolding decode_tagged
  tagged_inner tag w bytes p f n lo e = ground arith

  tagged-Trip :
      (tag : ℕ) {v w : Value Time Decimal}
      → Untaken tag
      → tag < 2 ^ 64
      → Trip calls v w
      → Trip calls (tagged tag v) (tagged tag w)
  unfolding encode_value decode_tagged
  tagged-Trip tag {v} {w} lo hi t = record {
    written = head 6 tag ++ t.written;
    writes = λ buf.
        rw (write_head-head buf 6 tag (omega arith) hi)
          (rw (t.writes (buf ++ head 6 tag)) (rw append_assoc));
    nonempty = omega arith;
    reads = tag-Reads calls tag t.written (tagged tag w) hi (λ bytes p f rest a hf.
        tagged_inner tag w bytes p f (length t.written) lo (t.reads bytes p f rest a hf));
  }

  mutual
    View-Trip : {v w : Value Time Decimal} → View calls v w → Trip calls v w
    View-Trip View.nil = nil-Trip calls
    View-Trip (View.bool b) = bool-Trip calls b
    View-Trip (View.int z h) = integer-Trip calls z h
    View-Trip (View.float f h e) = float-Trip calls f h e
    View-Trip (View.nan f h e) = nan-Trip calls f h e
    View-Trip (View.str enc bs h) = str-Trip calls enc bs h
    View-Trip (View.symbol bs h) = symbol-Trip calls bs h
    View-Trip (View.array h capa vs) = array-Trip h capa (ViewItems-Trip vs)
    View-Trip (View.hash h capa vs) = hash-Trip h capa (ViewPairs-Trip vs)
    View-Trip (View.tagged tag lo hi t) = tagged-Trip tag lo hi (View-Trip t)
    View-Trip (View.time t t' h e) = time-Trip calls t t' h e
    View-Trip (View.decimal d d' sign digits e m x hd em ex hm hx hs) =
        decimal-Trip calls d d' sign digits e m x hd em ex hm hx hs

    ViewItems-Trip : {xs ys : Items Time Decimal} → ViewItems calls xs ys → TripItems calls xs ys
    ViewItems-Trip ViewItems.no_items = no_items-Trip calls
    ViewItems-Trip (ViewItems.item v vs) = item-Trip calls (View-Trip v) (ViewItems-Trip vs)

    ViewPairs-Trip :
        {ps acc out : Pairs Time Decimal} → ViewPairs calls ps acc out → TripPairs calls ps acc out
    ViewPairs-Trip (ViewPairs.no_pairs e) = no_pairs-Trip calls e
    ViewPairs-Trip (ViewPairs.pair k v vs) =
        pair-Trip calls (Key-Trip calls k) (View-Trip v) (ViewPairs-Trip vs)

  pub trip : {v w : Value Time Decimal} → View calls v w → Trip calls v w
  trip h = View-Trip h
