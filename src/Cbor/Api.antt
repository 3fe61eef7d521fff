-- ===== src/Cbor/Api.antt =====
-- The objects and functions that ext/aws_crt/src/cbor.rs gives to Ruby: AwsCrt::Cbor.encode and
-- .decode, and the classes Encoder and Decoder with their state.
use aws_crt.Prelude.{ℕ, ◌+◌, ◌-◌, ltb, if◌then◌else◌, List, [], length}
use aws_crt.Cbor.Value.{Value}
use aws_crt.Cbor.Result.{Result, ok, err, panicked, out_of_fuel, Error, done, failed, extra_bytes}
use aws_crt.Cbor.Calls.{Calls}
use aws_crt.Cbor.Encode.{encode_value}
use aws_crt.Cbor.Decode.{decode_value}

pub record Encoder : Type 0 where
  pub buf : List ℕ

pub record Decoder : Type 0 where
  pub input : List ℕ
  pub position : ℕ

unfoldable pub new_encoder : Encoder
new_encoder = record { buf = [] }

unfoldable pub new_decoder : List ℕ → Decoder
new_decoder bytes = record { input = bytes; position = 0 }

-- What Encoder#add leaves in the buffer, and whether it raised.
pub data Added : Type 0 where
  added : Encoder → Added
  add_raised : Encoder → Error → Added

abbrev pub after_add : Added → Encoder
after_add (added e) = e
after_add (add_raised e x) = e

-- Encoder#bytes.
unfoldable pub encoder_bytes : Encoder → List ℕ
encoder_bytes e = e.buf

-- The check for bytes behind the value, in both decoders.
abbrev pub check_end {ℓ} : {A : Type ℓ} → List ℕ → ℕ → A → Result A
check_end bytes p a = if ltb p (length bytes) then err (extra_bytes (length bytes - p)) else ok a

-- Decoder#decode keeps the new position even when bytes are left over, and the old one when the
-- value cannot be read. The module function has the same ending, and no decoder to keep.
abbrev pub settle {ℓ} : {A : Type ℓ} → Decoder → Result (A × ℕ) → Decoder × Result A
settle d (ok (v, p)) = (record d { position = p }, check_end (d.input) p v)
settle d (err e) = (d, err e)
settle d panicked = (d, panicked)
settle d out_of_fuel = (d, out_of_fuel)

module _ {Time Decimal : Type 0} (calls : Calls Time Decimal) where
  unfoldable pub encode : Value Time Decimal → Result (List ℕ)
  encode v = elim (encode_value calls v []) [ done buf ↦ ok buf | failed buf e ↦ err e ]

  unfoldable pub encoder_add : Encoder → Value Time Decimal → Added
  encoder_add e v = elim (encode_value calls v e.buf) [
    | done buf ↦ added (record { buf = buf })
    | failed buf x ↦ add_raised (record { buf = buf }) x
  ]

  unfoldable pub decode : List ℕ → Result (Value Time Decimal)
  decode bytes = (settle (new_decoder bytes) (decode_value calls (length bytes + 1) bytes 0)).1

  unfoldable pub decoder_decode : Decoder → Decoder × Result (Value Time Decimal)
  decoder_decode d = settle d (decode_value calls (length (d.input) + 1) (d.input) (d.position))
