-- ===== src/Cbor/Read/Within.antt =====
-- The readers of heads, strings, integers and floats end on every input below 2 ^ 64 bytes, and move
-- the position forward inside it.
use aws_crt.Prelude.{
  ℕ, zero, suc, ◌+◌, ◌%◌, ◌^◌, ◌≤◌, ◌<◌, ltb, leb, ◌==◌, List, [], length, get_or, arith, ◌++◌, inl,
  inr, Bool-cases, from_be,
}
use aws_crt.Cbor.Result.{Result, ok, ◌>>=◌}
use aws_crt.Cbor.Result.Within.{
  Within, moved, refused, panics, Within-bind, Within-if, Within-weaken,
}
use aws_crt.Cbor.Head.{dec_peek, dec_take, dec_read_info, dec_read_count}
use aws_crt.Cbor.Read.{
  read_chunk, decode_integer_raw, decode_text_raw, decode_key, decode_chunks, decode_indef_string,
  decode_half_raw, read_float, decode_bignum_raw, then_ok,
}
use aws_crt.Cbor.Read.FastPath.{decode_text_raw-read_chunk, decode_key-decode_text_raw}

module _ (bytes : List ℕ) (small : length bytes < 2 ^ 64) where
  pub dec_take-Within : (p n : ℕ) → Within p (length bytes) (dec_take bytes p n)
  unfolding dec_take
  dec_take-Within p n =
      Within-if (ltb (length bytes) ((p + n) % 2 ^ 64)) (λ h. refused)
        (λ h.
          Within-if (ltb ((p + n) % 2 ^ 64) p) (λ k. panics)
            (λ k. moved (ground arith) (ground arith)))

  -- A step of one byte or more cannot come back to where it began.
  pub dec_take-one-Within :
      (p : ℕ) → p ≤ length bytes → Within (p + 1) (length bytes) (dec_take bytes p 1)
  unfolding dec_take
  dec_take-one-Within p hp =
      Within-if (ltb (length bytes) ((p + 1) % 2 ^ 64)) (λ h. refused)
        (λ h.
          Within-if (ltb ((p + 1) % 2 ^ 64) p) (λ k. panics)
            (λ k. moved (ground arith) (ground arith)))

  pub dec_read_info-Within :
      (p : ℕ) → p ≤ length bytes → Within (p + 1) (length bytes) (dec_read_info bytes p)
  unfolding dec_read_info
  dec_read_info-Within p hp = Within-bind _ (dec_take-one-Within p hp) (λ b q h k. moved h k)

  pub dec_read_count-Within :
      (p ai : ℕ) → p ≤ length bytes → Within p (length bytes) (dec_read_count bytes p ai)
  unfolding dec_read_count
  dec_read_count-Within p ai hp =
      Within-if (leb ai 23) (λ e. moved (omega arith) hp)
        (λ e.
          Within-if (ai == 24) (λ e. word 1)
            (λ e.
              Within-if (ai == 25) (λ e. word 2)
                (λ e.
                  Within-if (ai == 26) (λ e. word 4)
                    (λ e. Within-if (ai == 27) (λ e. word 8) (λ e. refused)))))
    where
      word : (n : ℕ) → Within p (length bytes) (dec_take bytes p n >>= λ (b, q). ok (from_be b, q))
      word n = Within-bind _ (dec_take-Within p n) (λ b q h k. moved h k)

  -- A head, and then what reads on from its count.
  pub head-Within :
      {B : Type 0} (p : ℕ) (g : (ℕ × ℕ) → ℕ × ℕ → Result (B × ℕ))
      → p ≤ length bytes
      → ((info : ℕ × ℕ) (v q : ℕ)
          → p + 1 ≤ q
          → q ≤ length bytes
          → Within (p + 1) (length bytes) (g info (v, q)))
      → Within
          (p + 1)
          (length bytes)
          (dec_read_info bytes p >>= λ (info, q). dec_read_count bytes q (info.1) >>= g info)
  head-Within p g hp f = Within-bind _ (dec_read_info-Within p hp) (λ info q h k.
      Within-bind (g info) (dec_read_count-Within q (info.1) k)
        (λ v r h' k'. f info v r (omega arith) k'))

  pub read_chunk-Within :
      (p : ℕ) → p ≤ length bytes → Within (p + 1) (length bytes) (read_chunk bytes p)
  unfolding read_chunk
  read_chunk-Within p hp =
      head-Within p (λ info (len, q). dec_take bytes q len) hp
        (λ info v q h k. Within-weaken h (dec_take-Within q v))

  pub decode_integer_raw-Within :
      (p : ℕ) → p ≤ length bytes → Within (p + 1) (length bytes) (decode_integer_raw bytes p)
  unfolding decode_integer_raw
  decode_integer_raw-Within p hp = Within-bind _ (dec_read_info-Within p hp) (λ (major, ai) q h k.
      Within-bind _ (dec_read_count-Within q ai k) (λ v r h' k'.
        Within-if (major == 0) (λ e. moved (omega arith) k')
          (λ e. Within-if (major == 1) (λ e. moved (omega arith) k') (λ e. refused))))

  pub decode_text_raw-Within :
      (p : ℕ) → p ≤ length bytes → Within (p + 1) (length bytes) (decode_text_raw bytes p)
  decode_text_raw-Within p hp =
      rw (decode_text_raw-read_chunk bytes p small) (read_chunk-Within p hp)

  pub decode_key-Within :
      (p : ℕ) → p ≤ length bytes → Within (p + 1) (length bytes) (decode_key bytes p)
  decode_key-Within p hp = rw (decode_key-decode_text_raw bytes p) (decode_text_raw-Within p hp)

  -- A look at the next byte, which is there if what follows runs.
  pub dec_peek-Within :
      {B : Type 0} {lo : ℕ} (p : ℕ) (g : ℕ → Result (B × ℕ))
      → ((b : ℕ) → p < length bytes → Within lo (length bytes) (g b))
      → Within lo (length bytes) (dec_peek bytes p >>= g)
  unfolding dec_peek
  dec_peek-Within p g f = elim (Bool-cases (leb (length bytes) p)) [
    | inl e ↦ rw e refused
    | inr e ↦ rw e (f (get_or bytes p 0) (ground arith))
  ]

  pub decode_chunks-Within :
      (rounds : ℕ) (result : List ℕ) (p : ℕ)
      → p ≤ length bytes
      → length bytes < rounds + p
      → Within p (length bytes) (decode_chunks rounds bytes result p)
  unfolding decode_chunks
  decode_chunks-Within zero result p hp hr = absurd (omega arith)
  decode_chunks-Within (suc rounds) result p hp hr = dec_peek-Within p _ (λ b lt.
      Within-if (b == 0xff) (λ e. moved (omega arith) (omega arith))
        (λ e. Within-bind _ (read_chunk-Within p hp) (λ chunk q h k.
          Within-weaken {lo = q} (omega arith)
            (decode_chunks-Within rounds (result ++ chunk) q k (omega arith)))))

  pub decode_indef_string-Within :
      (p : ℕ) → p < length bytes → Within (p + 1) (length bytes) (decode_indef_string bytes p)
  unfolding decode_indef_string
  decode_indef_string-Within p hp =
      decode_chunks-Within (suc (length bytes)) [] (p + 1) (omega arith) (omega arith)

  pub decode_half_raw-Within : (p : ℕ) → Within (p + 1) (length bytes) (decode_half_raw bytes p)
  unfolding decode_half_raw
  decode_half_raw-Within p = Within-bind _ (dec_take-Within (p + 1) 2) (λ b q h k. moved h k)

  pub read_float-Within : (p n : ℕ) → Within (p + 1) (length bytes) (read_float bytes p n)
  read_float-Within p n =
      Within-if (ltb (length bytes) (p + 1 + n)) (λ e. refused)
        (λ e. moved (omega arith) (ground arith))

  pub decode_bignum_raw-Within :
      (p tag : ℕ) → p ≤ length bytes → Within (p + 1) (length bytes) (decode_bignum_raw bytes p tag)
  unfolding decode_bignum_raw
  decode_bignum_raw-Within p tag hp = Within-bind _ (read_chunk-Within p hp) (λ bs q h k.
      Within-if (tag == 2) (λ e. moved h k)
        (λ e. Within-if (tag == 3) (λ e. moved h k) (λ e. refused)))

pub then_ok-Within :
    {A B : Type 0} {lo hi : ℕ} {r : Result (A × ℕ)} (g : A → B)
    → Within lo hi r
    → Within lo hi (then_ok r g)
then_ok-Within g (moved h k) = moved h k
then_ok-Within g refused = refused
then_ok-Within g panics = panics
