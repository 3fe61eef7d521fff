-- ===== src/Cbor/Head.antt =====
-- The readers of a data item's head in ext/aws_crt/src/cbor.rs: dec_peek, dec_take, dec_read_info and
-- dec_read_count. A reader takes the input and a position, and gives the position behind what it read.
pub mod Position
pub mod RoundTrip
pub mod Placed
use aws_crt.Prelude.{
  ℕ, ◌+◌, ◌-◌, ◌/◌, ◌%◌, ◌^◌, bit_and, ltb, leb, ◌==◌, if◌then◌else◌, List, length, get_or, take,
  drop, from_be,
}
use aws_crt.Prelude.Int.{sub_ℕ}
use aws_crt.Cbor.Result.{Result, ok, err, panicked, ◌>>=◌, out_of_bytes, unexpected_additional_info}

unfoldable pub dec_peek : List ℕ → ℕ → Result ℕ
dec_peek bytes p =
    if leb (length bytes) p
    then err (out_of_bytes 1 (sub_ℕ (length bytes) p))
    else ok (get_or bytes p 0)

-- `pos + n` wraps at 2 ^ 64. A slice whose end lies before its start panics.
unfoldable pub dec_take : List ℕ → ℕ → ℕ → Result (List ℕ × ℕ)
dec_take bytes p n =
    let new_pos = (p + n) % 2 ^ 64 in
    if ltb (length bytes) new_pos
    then err (out_of_bytes n (sub_ℕ (length bytes) p))
    else if ltb new_pos p
    then panicked
    else ok (take (new_pos - p) (drop p bytes), new_pos)

-- The major type and the additional information: `b >> 5` and `b & 0x1f`.
unfoldable pub dec_read_info : List ℕ → ℕ → Result ((ℕ × ℕ) × ℕ)
dec_read_info bytes p = do
  (b, p') ← dec_take bytes p 1
  ok ((get_or b 0 0 / 2 ^ 5, bit_and (get_or b 0 0) 0x1f), p')

abbrev pub read_word : List ℕ → ℕ → ℕ → Result (ℕ × ℕ)
read_word bytes p n = do (b, p') ← dec_take bytes p n; ok (from_be b, p')

unfoldable pub dec_read_count : List ℕ → ℕ → ℕ → Result (ℕ × ℕ)
dec_read_count bytes p ai =
    if leb ai 23
    then ok (ai, p)
    else if ai == 24
    then read_word bytes p 1
    else if ai == 25
    then read_word bytes p 2
    else if ai == 26
    then read_word bytes p 4
    else if ai == 27
    then read_word bytes p 8
    else err (unexpected_additional_info ai)
