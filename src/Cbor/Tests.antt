-- ===== src/Cbor/Tests.antt =====
-- Runs of the CBOR code on concrete inputs.
use aws_crt.Prelude.{
  ◌^◌, ◌<◌, List, [], arith, inr, length, refl, same_bytes, to_be, true, ℕ, ◌*◌, ◌++◌, ◌∷◌, ◌≡◌,
  ◌≢◌,
}
use aws_crt.Prelude.Int.{negsuc, pos, ℤ}
use aws_crt.Cbor.Value.{
  Value, array, count_items, count_pairs, float, hash, hash_aset, int, item, nil, no_items,
  no_pairs, object, other_type, pair, str, symbol, utf8,
}
use aws_crt.Cbor.Calls.{Calls, finite}
use aws_crt.Cbor.Result.{err, extra_bytes, ok, out_of_bytes, out_of_fuel, unknown_type}
use aws_crt.Cbor.Float.{bit_length, half_value, narrow, widen}
use aws_crt.Cbor.Float.Bounds.{widen-narrow}
use aws_crt.Cbor.Encode.{
  encode_auto_float, encode_integer, encode_string, encode_text, encode_value, is_fixnum,
  write_head,
}
use aws_crt.Cbor.Head.{dec_read_count, dec_read_info, dec_take}
use aws_crt.Cbor.Head.Placed.{read_head, read_head-write_head}
use aws_crt.Cbor.Read.{decode_key, decode_text_raw, read_chunk}
use aws_crt.Cbor.Read.FastPath.{decode_text_raw-read_chunk}
use aws_crt.Cbor.Decode.{decode_item, decode_major, decode_map_raw, decode_pairs, decode_value}
use aws_crt.Cbor.Api.{
  Decoder, Encoder, add_raised, decode, decoder_decode, encode, encoder_add, new_decoder,
}
use aws_crt.Cbor.Total.{Decoded, decode-ne-out_of_fuel, decoder_decode-Decoded}
use aws_crt.Cbor.View.{Key, View, ViewItems, ViewPairs}
use aws_crt.Cbor.Decoded.Numbers.{AreBytes}
use aws_crt.Cbor.Decoded.Shape.{Shape}
use aws_crt.Cbor.Decoded.Values.{Roomy}
use aws_crt.Cbor.Decoded.Again.{Plain, PlainItems, PlainPairs, decode-Shape, decode_again}
use aws_crt.Cbor.RoundTrip.Api.{decode-encode}
use aws_crt.Cbor.Append.{Agreement, encoder_add-Agreement}

-- A clock that reads 1.0, and decimals that are their own parts.
abbrev pub Decimals : Type 0
Decimals = ℤ × ℤ

abbrev pub calls : Calls (Unit {0}) Decimals
calls = record {
  to_f = λ t. 0x3ff0_0000_0000_0000;
  time_at = λ v. inr tt;
  parts = λ d. finite (pos 1) (1 ∷ []) (pos 1);
  scaled = λ m e. inr (m, e);
  ary_capa = λ n. true;
  hash_capa = λ n. true;
}

abbrev pub V : Type 0
V = Value (Unit {0}) Decimals

abbrev pub sample : V
sample = hash (
    pair (str utf8 (97 ∷ [])) (array (item (int (pos 500)) (item (int (negsuc 9)) no_items)))
      (pair (symbol (98 ∷ [])) (float 0x3ff0_0000_0000_0000) no_pairs))

sample_bytes :
    encode calls sample
    ≡ ok (
        0xa2 ∷ 0x61 ∷ 97 ∷ 0x82 ∷ 0x19 ∷ 1 ∷ 0xf4 ∷ 0x29 ∷ 0x61 ∷ 98 ∷ 0xfa ∷ 0x3f ∷ 0x80 ∷ 0 ∷ 0
        ∷ [])
unfolding encode encode_value encode_string encode_text encode_integer encode_auto_float is_fixnum
    write_head to_be count_items count_pairs narrow widen
sample_bytes = refl

narrow_tenth : narrow 0x3fb9_9999_9999_999a ≡ 0x3dcc_cccd
unfolding narrow
narrow_tenth = refl

widen_subnormal : widen 1 ≡ 0x36a0_0000_0000_0000
unfolding widen
widen_subnormal = refl

half_one : half_value 0x3c00 ≡ 0x3ff0_0000_0000_0000
unfolding half_value
half_one = refl

abbrev sample_back : V
sample_back = hash (
    pair (str utf8 (97 ∷ [])) (array (item (int (pos 500)) (item (int (negsuc 9)) no_items)))
      (pair (str utf8 (98 ∷ [])) (float 0x3ff0_0000_0000_0000) no_pairs))

abbrev encoded : List ℕ
encoded =
    0xa2 ∷ 0x61 ∷ 97 ∷ 0x82 ∷ 0x19 ∷ 1 ∷ 0xf4 ∷ 0x29 ∷ 0x61 ∷ 98 ∷ 0xfa ∷ 0x3f ∷ 0x80 ∷ 0 ∷ 0 ∷ []

-- Both keys come back as strings.
sample-View : View calls sample sample_back
unfolding bit_length count_items count_pairs hash_aset same_bytes
sample-View = View.hash (omega arith) refl (
    ViewPairs.pair (Key.str utf8 (97 ∷ []) (omega arith))
      (View.array (omega arith) refl (
        ViewItems.item (View.int (pos 500) (omega arith))
          (ViewItems.item (View.int (negsuc 9) (omega arith)) ViewItems.no_items)))
      (ViewPairs.pair (Key.symbol (98 ∷ []) (omega arith)) (View.float _ (omega arith) refl)
        (ViewPairs.no_pairs refl)))

decode-encode_example : decode calls encoded ≡ ok sample_back
decode-encode_example = decode-encode calls encoded sample-View sample_bytes (omega arith)

abbrev two_items : Decoder
two_items = record { input = 1 ∷ 2 ∷ []; position = 0 }

decoder_decode-Decoded_example : Decoded two_items (decoder_decode calls two_items)
decoder_decode-Decoded_example = decoder_decode-Decoded calls two_items (omega arith) (omega arith)

-- The first item of two is read and given up, and the next call reads the second.
two_items_run :
    decoder_decode calls two_items ≡ (record two_items { position = 1 }, err (extra_bytes 1))
unfolding decoder_decode decode_value decode_item decode_major
two_items_run = refl

decode-ne-out_of_fuel_example : decode calls (0x9f ∷ 0x9f ∷ 0x81 ∷ []) ≢ out_of_fuel
decode-ne-out_of_fuel_example = decode-ne-out_of_fuel calls (0x9f ∷ 0x9f ∷ 0x81 ∷ []) (omega arith)

decode_text_raw-read_chunk_example :
    decode_text_raw (0x62 ∷ 97 ∷ 98 ∷ []) 0 ≡ read_chunk (0x62 ∷ 97 ∷ 98 ∷ []) 0
decode_text_raw-read_chunk_example =
    decode_text_raw-read_chunk (0x62 ∷ 97 ∷ 98 ∷ []) 0 (omega arith)

read_head-write_head_example :
    read_head (write_head (7 ∷ []) (2 * 32) 1000 ++ (9 ∷ [])) 1
    ≡ ok (2, 1000, length (write_head (7 ∷ []) (2 * 32) 1000))
unfolding write_head to_be
read_head-write_head_example =
    read_head-write_head (7 ∷ []) 2 1000 (9 ∷ []) (omega arith) (omega arith) (omega arith)

-- 1.0 is kept by the single format.
widen-narrow_example : widen (narrow 0x3ff0_0000_0000_0000) ≡ 0x3ff0_0000_0000_0000
unfolding narrow widen
widen-narrow_example = widen-narrow 0x3ff0_0000_0000_0000 (omega arith) refl

-- A map with a key that is no text is written, and does not come back: its key is read as a text.
abbrev integer_key : V
integer_key = hash (pair (int (pos 1)) nil no_pairs)

integer_key_encoded : encode calls integer_key ≡ ok (0xa1 ∷ 1 ∷ 0xf6 ∷ [])
unfolding encode encode_value encode_integer is_fixnum write_head count_pairs
integer_key_encoded = refl

integer_key_decoded : decode calls (0xa1 ∷ 1 ∷ 0xf6 ∷ []) ≡ err (out_of_bytes 1 (pos 0))
unfolding decode new_decoder decode_value decode_item decode_major decode_map_raw decode_pairs
    decode_key dec_read_info dec_take dec_read_count decode_text_raw
integer_key_decoded = refl

-- A second item cannot be written, and what was written before it stays in the encoder.
abbrev bad_array : V
bad_array = array (item (int (pos 1)) (item (object other_type "Foo") no_items))

abbrev busy_encoder : Encoder
busy_encoder = record { buf = 7 ∷ [] }

encoder_add-Agreement_example :
    Agreement calls busy_encoder (encode calls bad_array) (encoder_add calls busy_encoder bad_array)
encoder_add-Agreement_example = encoder_add-Agreement calls busy_encoder bad_array

bad_array_added :
    encoder_add calls busy_encoder bad_array
    ≡ add_raised (record { buf = 7 ∷ 0x82 ∷ 1 ∷ [] }) (unknown_type "Foo")
unfolding encoder_add encode_value encode_integer is_fixnum write_head count_items
bad_array_added = refl

encoded-AreBytes : AreBytes encoded
encoded-AreBytes = omega arith

calls-Roomy : (n : ℕ) → Roomy calls n
calls-Roomy n = record { arrays = λ k h. refl; hashes = λ k h. refl; smaller = λ j k h e. refl }

decode-Shape_example : Shape calls sample_back
decode-Shape_example =
    decode-Shape calls encoded encoded-AreBytes (omega arith) (calls-Roomy (length encoded))
      (decode-encode calls encoded sample-View sample_bytes (omega arith))

sample_back-Plain : Plain sample_back
unfolding Plain PlainItems PlainPairs
sample_back-Plain = ((tt, (tt, tt)), (refl, tt))

sample_back_bytes : encode calls sample_back ≡ ok encoded
unfolding encode encode_value encode_string encode_text encode_integer encode_auto_float is_fixnum
    write_head to_be count_items count_pairs narrow widen
sample_back_bytes = refl

sample_back_short : (bs : List ℕ) → encode calls sample_back ≡ ok bs → length bs < 2 ^ 64
sample_back_short bs e =
    let same : encoded ≡ bs = cc (sample_back_bytes) in rw (← same) (omega arith)

decode_again_example :
    (bs : List ℕ) × (encode calls sample_back ≡ ok bs) × (decode calls bs ≡ ok sample_back)
decode_again_example =
    decode_again calls encoded encoded-AreBytes (omega arith) (calls-Roomy (length encoded))
      sample_back (decode-encode calls encoded sample-View sample_bytes (omega arith))
      sample_back-Plain sample_back_short
