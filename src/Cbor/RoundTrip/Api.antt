-- ===== src/Cbor/RoundTrip/Api.antt =====
-- The module functions AwsCrt::Cbor.encode and .decode one after the other.
use aws_crt.Prelude.{ℕ, ◌+◌, ◌^◌, ◌<◌, ◌≡◌, arith, List, [], ◌++◌, length, append-nil}
use aws_crt.Cbor.Value.{Value}
use aws_crt.Cbor.Result.{ok}
use aws_crt.Cbor.Calls.{Calls}
use aws_crt.Cbor.Head.Position.{At, At-start}
use aws_crt.Cbor.Api.{encode, decode, new_decoder}
use aws_crt.Cbor.View.{View}
use aws_crt.Cbor.RoundTrip.Scalars.{Trip}
use aws_crt.Cbor.RoundTrip.Containers.{trip}

module _ {Time Decimal : Type 0} (calls : Calls Time Decimal) where
  encode-written : {v w : Value Time Decimal} (t : Trip calls v w) → encode calls v ≡ ok (t.written)
  unfolding encode
  encode-written t = rw (t.writes [], encode)

  -- A value that View relates to another is encoded, to one byte at least.
  pub encode-View :
      {v w : Value Time Decimal}
      → View calls v w
      → (bs : List ℕ) × (encode calls v ≡ ok bs) × (0 < length bs)
  encode-View h = let t = trip calls h in (t.written, encode-written t, t.nonempty)

  decode-written :
      {v w : Value Time Decimal} (t : Trip calls v w)
      → length (t.written) < 2 ^ 64
      → decode calls (t.written) ≡ ok w
  unfolding decode new_decoder
  decode-written t h =
      let whole : At (t.written) 0 (t.written ++ []) = rw append-nil (At-start (t.written) h) in
      rw (t.reads (t.written) 0 (length (t.written) + 1) [] whole (omega arith), decode)
        (ground arith)

  -- Decoding what encode made of a value gives the value that View relates to it, provided that the
  -- encoding is shorter than 2 ^ 64 bytes.
  pub decode-encode :
      {v w : Value Time Decimal} (bs : List ℕ)
      → View calls v w
      → encode calls v ≡ ok bs
      → length bs < 2 ^ 64
      → decode calls bs ≡ ok w
  decode-encode bs h e small =
      let t = trip calls h in
      let same : t.written ≡ bs = cc (encode-written t, e) in
      rw same at (decode-written t (rw same small))
