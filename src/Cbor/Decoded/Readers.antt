-- ===== src/Cbor/Decoded/Readers.antt =====
-- The numbers and the byte strings that the readers of ext/aws_crt/src/cbor.rs make: how wide and how
-- long they are.
use aws_crt.Prelude.{
  ℕ, zero, suc, ◌+◌, ◌-◌, ◌*◌, ◌%◌, ◌^◌, ◌≤◌, ◌<◌, ◌≡◌, ltb, leb, ◌==◌, List, [], ◌++◌, length,
  length-append, get_or, take, drop, arith, from_be, inl, inr, Bool-cases,
}
use aws_crt.Prelude.Int.{ℤ}
use aws_crt.Cbor.Result.{Result, ok, ◌>>=◌}
use aws_crt.Cbor.Result.Makes.{
  Makes, made, refused, panics, starved, Makes-map, Makes-bind, Makes-if,
}
use aws_crt.Cbor.Float.{bit_length}
use aws_crt.Cbor.Float.Bounds.{pow-256}
use aws_crt.Cbor.Float.Widths.{bit_length_le, half_value_bound}
use aws_crt.Cbor.View.{magnitude}
use aws_crt.Cbor.Head.{dec_peek, dec_take, dec_read_info, dec_read_count}
use aws_crt.Cbor.Read.{
  read_chunk, decode_integer_raw, decode_text_raw, decode_key, decode_chunks, decode_indef_string,
  decode_half_raw, read_float, decode_bignum_raw, then_ok,
}
use aws_crt.Cbor.Read.FastPath.{decode_text_raw-read_chunk, decode_key-decode_text_raw}
use aws_crt.Cbor.Decoded.Numbers.{
  AreBytes, take-AreBytes, drop-AreBytes, length-take-le, from_be_bound,
}
use native.Mathlib.Nat.{pow-le-pow_right}

pub then_ok-Makes :
    {A B : Type 0} {Q : A → ℕ → Type 0} {P : B → ℕ → Type 0} {r : Result (A × ℕ)} (g : A → B)
    → Makes Q r
    → ((a : A) (q : ℕ) → Q a q → P (g a) q)
    → Makes P (then_ok r g)
then_ok-Makes g (made {a} {q} h) k = made (k a q h)
then_ok-Makes g refused k = refused
then_ok-Makes g panics k = panics
then_ok-Makes g starved k = starved

word_bound : (n : ℕ) (bs : List ℕ) → AreBytes bs → length bs ≤ n → from_be bs < 256 ^ n
word_bound n bs h le =
    let p : 256 ^ length bs ≤ 256 ^ n = pow-le-pow_right (omega arith) le in
    omega (arith, from_be_bound bs h)

module _ (bytes : List ℕ) (valid : AreBytes bytes) (small : 8 * length bytes + 64 < 2 ^ 64) where
  -- A piece of the input that starts at p or behind it, of at most n bytes.
  abbrev Piece : ℕ → ℕ → List ℕ → ℕ → Type 0
  Piece p n bs q = AreBytes bs × (length bs ≤ n) × (p + length bs ≤ q) × (q ≤ length bytes)

  dec_take-Makes : (p n : ℕ) → Makes (Piece p n) (dec_take bytes p n)
  unfolding dec_take
  dec_take-Makes p n =
      let next = (p + n) % 2 ^ 64 in
      Makes-if (ltb (length bytes) next) (λ h. refused)
        (λ h.
          Makes-if (ltb next p) (λ k. panics)
            (λ k.
              let len = length-take-le (next - p) (drop p bytes) in
              made (
                take-AreBytes (next - p) (drop p bytes) (drop-AreBytes p bytes valid),
                ground (arith, len),
                ground (arith, len),
                ground arith,
              )))

  -- What comes behind a position that was reached from p.
  abbrev pub Behind : {A : Type 0} → ℕ → A → ℕ → Type 0
  Behind p a q = (p ≤ q) × (q ≤ length bytes)

  dec_read_info-Makes : (p : ℕ) → Makes (Behind p) (dec_read_info bytes p)
  unfolding dec_read_info
  dec_read_info-Makes p =
      Makes-bind _ (dec_take-Makes p 1) (λ b q h. made (omega arith, omega arith))

  pub dec_read_count-Makes :
      (p ai : ℕ)
      → p ≤ length bytes
      → Makes (λ v q. (v < 2 ^ 64) × Behind p v q) (dec_read_count bytes p ai)
  unfolding dec_read_count
  dec_read_count-Makes p ai hp =
      Makes-if (leb ai 23) (λ e. made (ground arith, (omega arith, hp)))
        (λ e.
          Makes-if (ai == 24) (λ e. word 1 (omega arith))
            (λ e.
              Makes-if (ai == 25) (λ e. word 2 (omega arith))
                (λ e.
                  Makes-if (ai == 26) (λ e. word 4 (omega arith))
                    (λ e. Makes-if (ai == 27) (λ e. word 8 (omega arith)) (λ e. refused)))))
    where
      word :
          (n : ℕ)
          → n ≤ 8
          → Makes
              (λ v q. (v < 2 ^ 64) × Behind p v q)
              (dec_take bytes p n >>= λ (b, q). ok (from_be b, q))
      word n le =
          Makes-bind _ (dec_take-Makes p n)
            (λ b q h. made (omega (arith, word_bound 8 b (h.0) (omega arith)), (omega arith, h.3)))

  -- A head, and then what reads on from its count.
  pub head-Makes :
      {B : Type 0} {P : B → ℕ → Type 0} (p : ℕ) (g : (ℕ × ℕ) → ℕ × ℕ → Result (B × ℕ))
      → ((info : ℕ × ℕ) (v q : ℕ) → v < 2 ^ 64 → p ≤ q → q ≤ length bytes → Makes P (g info (v, q)))
      → Makes P (dec_read_info bytes p >>= λ (info, q). dec_read_count bytes q (info.1) >>= g info)
  head-Makes p g f = Makes-bind _ (dec_read_info-Makes p) (λ info q h.
      Makes-bind (g info) (dec_read_count-Makes q (info.1) (h.1))
        (λ v r k. f info v r (k.0) (omega arith) (k.1.1)))

  -- The bytes that a chunk gives, and a place for them in the input.
  abbrev pub Chunk : ℕ → List ℕ → ℕ → Type 0
  Chunk p bs q = AreBytes bs × (p + length bs ≤ q) × (q ≤ length bytes)

  pub read_chunk-Makes : (p : ℕ) → Makes (Chunk p) (read_chunk bytes p)
  unfolding read_chunk
  read_chunk-Makes p =
      head-Makes p (λ info (len, q). dec_take bytes q len)
        (λ info v q small le hq. Makes-map (dec_take-Makes q v) (λ bs r h. (h.0, omega arith, h.3)))

  abbrev pub Fits : ℤ → ℕ → Type 0
  Fits z q = bit_length (magnitude z) < 2 ^ 64

  pub decode_integer_raw-Makes : (p : ℕ) → Makes Fits (decode_integer_raw bytes p)
  unfolding decode_integer_raw
  decode_integer_raw-Makes p = Makes-bind _ (dec_read_info-Makes p) (λ (major, ai) q h.
      Makes-bind _ (dec_read_count-Makes q ai (h.1)) (λ v r k.
        let bits = bit_length_le v 64 (k.0) in
        Makes-if (major == 0) (λ e. made (omega arith))
          (λ e. Makes-if (major == 1) (λ e. made (omega arith)) (λ e. refused))))

  pub decode_text_raw-Makes : (p : ℕ) → Makes (Chunk p) (decode_text_raw bytes p)
  decode_text_raw-Makes p =
      rw (decode_text_raw-read_chunk bytes p (omega arith)) (read_chunk-Makes p)

  pub decode_key-Makes : (p : ℕ) → Makes (Chunk p) (decode_key bytes p)
  decode_key-Makes p = rw (decode_key-decode_text_raw bytes p) (decode_text_raw-Makes p)

  pub dec_peek-Makes :
      {B : Type 0} {P : B → ℕ → Type 0} (p : ℕ) (g : ℕ → Result (B × ℕ))
      → ((b : ℕ) → p < length bytes → Makes P (g b))
      → Makes P (dec_peek bytes p >>= g)
  unfolding dec_peek
  dec_peek-Makes p g f = elim (Bool-cases (leb (length bytes) p)) [
    | inl e ↦ rw e refused
    | inr e ↦ rw e (f (get_or bytes p 0) (ground arith))
  ]

  -- The chunks take their place in the input.
  decode_chunks-Makes :
      (rounds : ℕ) (result : List ℕ) (p : ℕ)
      → Makes
          (λ bs q. (length bs + p ≤ length result + q) × (q ≤ length bytes))
          (decode_chunks rounds bytes result p)
  unfolding decode_chunks
  decode_chunks-Makes zero result p = starved
  decode_chunks-Makes (suc rounds) result p = dec_peek-Makes p _ (λ b lt.
      Makes-if (b == 0xff) (λ e. made (omega arith, omega arith))
        (λ e. Makes-bind _ (read_chunk-Makes p) (λ chunk q h.
          let len : length (result ++ chunk) ≡ length result + length chunk =
            length-append result chunk in
          Makes-map (decode_chunks-Makes rounds (result ++ chunk) q)
            (λ bs r k. (omega (arith, len, h.1), k.1)))))

  pub decode_indef_string-Makes :
      (p : ℕ) → Makes (λ bs q. length bs ≤ length bytes) (decode_indef_string bytes p)
  unfolding decode_indef_string
  decode_indef_string-Makes p =
      Makes-map (decode_chunks-Makes (suc (length bytes)) [] (p + 1)) (λ bs q k. omega arith)

  pub decode_half_raw-Makes : (p : ℕ) → Makes (λ f q. f < 2 ^ 64) (decode_half_raw bytes p)
  unfolding decode_half_raw
  decode_half_raw-Makes p =
      Makes-bind _ (dec_take-Makes (p + 1) 2)
        (λ b q h. made (half_value_bound (from_be b) (omega (arith, word_bound 2 b (h.0) (h.1)))))

  pub read_float-Makes : (p n : ℕ) → Makes (λ f q. f < 256 ^ n) (read_float bytes p n)
  read_float-Makes p n =
      Makes-if (ltb (length bytes) (p + 1 + n)) (λ e. refused)
        (λ e. made (
          word_bound n (take n (drop (p + 1) bytes))
            (take-AreBytes n (drop (p + 1) bytes) (drop-AreBytes (p + 1) bytes valid))
            (length-take-le n (drop (p + 1) bytes))))

  big_bound : (p q : ℕ) (bs : List ℕ) → Chunk p bs q → bit_length (from_be bs) < 2 ^ 64
  big_bound p q bs h =
      let low : from_be bs < 2 ^ (8 * length bs) = rw (← pow-256) (from_be_bound bs (h.0)) in
      omega (arith, bit_length_le (from_be bs) (8 * length bs) low)

  pub decode_bignum_raw-Makes : (p tag : ℕ) → Makes Fits (decode_bignum_raw bytes p tag)
  unfolding decode_bignum_raw
  decode_bignum_raw-Makes p tag = Makes-bind _ (read_chunk-Makes p) (λ bs q h.
      Makes-if (tag == 2) (λ e. made (big_bound p q bs h))
        (λ e. Makes-if (tag == 3) (λ e. made (big_bound p q bs h)) (λ e. refused)))
