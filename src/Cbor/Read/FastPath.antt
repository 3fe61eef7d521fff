-- ===== src/Cbor/Read/FastPath.antt =====
-- The short cuts of the decoder: the two fast paths for short texts read what the general path reads.
use aws_crt.Prelude.{ℕ, ◌+◌, ◌^◌, ◌≤◌, ◌<◌, ◌≡◌, bit_and, List, length, get_or, take, drop, arith}
use aws_crt.Cbor.Result.{ok}
use aws_crt.Cbor.Head.{dec_read_count}
use aws_crt.Cbor.Head.Position.{dec_take_inside, dec_read_info_inside}
use aws_crt.Cbor.Read.{read_chunk, decode_text_raw, decode_key}

short_count : (bytes : List ℕ) (p ai : ℕ) → ai < 24 → dec_read_count bytes p ai ≡ ok (ai, p)
unfolding dec_read_count
short_count bytes p ai h = ground arith

-- A chunk whose length stands in its first byte.
pub read_chunk_short :
    (bytes : List ℕ) (p : ℕ)
    → length bytes < 2 ^ 64
    → let ai = bit_and (get_or bytes p 0) 0x1f in
      ai < 24
      → p + 1 + ai ≤ length bytes
      → read_chunk bytes p ≡ ok (take ai (drop (p + 1) bytes), p + 1 + ai)
unfolding read_chunk
read_chunk_short bytes p small short fits =
    rw (dec_read_info_inside bytes p small (omega arith))
      (rw (short_count bytes (p + 1) _ short) (dec_take_inside bytes (p + 1) _ small fits))

-- decode_text_raw reads what its slow path alone would read, on every input below 2 ^ 64 bytes and
-- at every position.
pub decode_text_raw-read_chunk :
    (bytes : List ℕ) (p : ℕ) → length bytes < 2 ^ 64 → decode_text_raw bytes p ≡ read_chunk bytes p
unfolding decode_text_raw
decode_text_raw-read_chunk bytes p small = ground (arith, read_chunk_short bytes p small)

-- The key decoder inlined in decode_map_raw and decode_indef_map reads what decode_text_raw reads,
-- on every input and at every position.
pub decode_key-decode_text_raw :
    (bytes : List ℕ) (p : ℕ) → decode_key bytes p ≡ decode_text_raw bytes p
unfolding decode_key decode_text_raw
decode_key-decode_text_raw bytes p = ground arith
