-- ===== src/Cbor/Total.antt =====
-- The decoders of ext/aws_crt/src/cbor.rs as wholes: how a call of them ends.
use aws_crt.Prelude.{
  ℕ, ◌+◌, ◌-◌, ◌^◌, ◌≤◌, ◌<◌, ◌≡◌, ◌≢◌, arith, List, length, ltb, inl, inr, Bool-cases,
}
use aws_crt.Cbor.Result.{Result, ok, err, out_of_fuel, extra_bytes}
use aws_crt.Cbor.Result.Within.{Within, moved, refused, panics}
use aws_crt.Cbor.Calls.{Calls}
use aws_crt.Cbor.Decode.Within.{decode_value-Within}
use aws_crt.Cbor.Api.{decode, decoder_decode, Decoder, settle, new_decoder}

-- How a call of Decoder#decode ended.
pub data Decoded {A : Type 0} (d : Decoder) : Decoder × Result A → Type 0 where
  -- The last value of the input was read.
  whole :
      {q : ℕ} {v : A}
      → d.position < q
      → q ≡ length (d.input)
      → Decoded d (record d { position = q }, ok v)
  -- A value was read and discarded: bytes are left behind it.
  left_over :
      {q : ℕ}
      → d.position < q
      → q < length (d.input)
      → Decoded d (record d { position = q }, err (extra_bytes (length (d.input) - q)))
  -- No value could be read, and the position stayed.
  stayed : {r : Result A} → ((v : A) → r ≢ ok v) → r ≢ out_of_fuel → Decoded d (d, r)

settle-Decoded :
    {A : Type 0} (d : Decoder) {r : Result (A × ℕ)}
    → Within (d.position + 1) (length (d.input)) r
    → Decoded d (settle d r)
settle-Decoded d (moved {a} {q} h k) = elim (Bool-cases (ltb q (length (d.input)))) [
  | inl e ↦ rw e (left_over (omega arith) (ground arith))
  | inr e ↦ rw e (whole (omega arith) (ground arith))
]
settle-Decoded d refused = stayed (λ v e. cc) (λ e. cc)
settle-Decoded d panics = stayed (λ v e. cc) (λ e. cc)

Decoded-ne-out_of_fuel :
    {A : Type 0} {d e : Decoder} {r : Result A} → Decoded d (e, r) → r ≢ out_of_fuel
Decoded-ne-out_of_fuel (whole h k) = λ x. cc
Decoded-ne-out_of_fuel (left_over h k) = λ x. cc
Decoded-ne-out_of_fuel (stayed h k) = k

module _ {Time Decimal : Type 0} (calls : Calls Time Decimal) where
  -- On an input shorter than 2 ^ 64 bytes, Decoder#decode returns from every position of it. Either it
  -- reads a value that ends the input, or it reads one, reports the number of bytes behind it and stays
  -- behind it, or it fails and keeps its position.
  pub decoder_decode-Decoded :
      (d : Decoder)
      → d.position ≤ length (d.input)
      → length (d.input) < 2 ^ 64
      → Decoded d (decoder_decode calls d)
  unfolding decoder_decode
  decoder_decode-Decoded d h small = settle-Decoded d (
      decode_value-Within calls (d.input) small (length (d.input) + 1) (d.position) h (omega arith))

  -- AwsCrt::Cbor.decode returns on every input shorter than 2 ^ 64 bytes: nesting takes a byte for each
  -- level and each round of a loop takes one, so that the fuel is enough.
  pub decode-ne-out_of_fuel :
      (bytes : List ℕ) → length bytes < 2 ^ 64 → decode calls bytes ≢ out_of_fuel
  unfolding decode new_decoder
  decode-ne-out_of_fuel bytes small = Decoded-ne-out_of_fuel (
      settle-Decoded (new_decoder bytes)
        (decode_value-Within calls bytes small (length bytes + 1) 0 (omega arith) (omega arith)))
