-- ===== src/Cbor/RoundTrip/Scalars.antt =====
-- Values that hold no other value: constants, integers below 2 ^ 64, floats and strings.
use aws_crt.Prelude.{
  ℕ, zero, suc, ◌+◌, ◌/◌, ◌%◌, ◌^◌, ◌≤◌, ◌<◌, ◌≡◌, ap, ◌∙◌, ltb, true, List, [], ◌∷◌, ◌++◌, arith,
  length, length-append, append_assoc, to_be, length-to_be, from_be-to_be, if◌then◌else◌, take,
  drop, take-append, ge→ltb,
}
use aws_crt.Prelude.Int.{pos, negsuc}
use aws_crt.Cbor.Value.{Value, int, float, str, utf8, binary}
use aws_crt.Cbor.Result.{Result, ok, done}
use aws_crt.Cbor.Calls.{Calls}
use aws_crt.Cbor.Encode.{encode_value}
use aws_crt.Cbor.Head.Position.{At, At-next}
use aws_crt.Cbor.Head.RoundTrip.{head, head_info, head_tail, head_info_bound, dec_read_info-head}
use aws_crt.Cbor.Float.{widen}
use aws_crt.Cbor.Read.{read_float, decode_integer_raw, then_ok, decode_binary_raw}
use aws_crt.Cbor.Read.FastPath.{decode_text_raw-read_chunk}
use aws_crt.Cbor.Decode.{decode_value, decode_major, decode_simple}
use aws_crt.Cbor.RoundTrip.Items.{
  dec_read_count-head, read_chunk-head, decode_value-byte, decode_value-head,
}

module _ {Time Decimal : Type 0} (calls : Calls Time Decimal) where
  -- `bs` is read as `w`, in front of anything and with fuel for its length.
  abbrev pub Reads : List ℕ → Value Time Decimal → Type 0
  Reads bs w =
      (bytes : List ℕ) (p f : ℕ) (rest : List ℕ)
      → At bytes p (bs ++ rest)
      → length bs < f
      → decode_value calls f bytes p ≡ ok (w, p + length bs)

  -- `v` is written as some bytes that are read as `w`.
  pub record Trip (v w : Value Time Decimal) : Type 0 where
    pub written : List ℕ
    pub writes : (buf : List ℕ) → encode_value calls v buf ≡ done (buf ++ written)
    pub nonempty : 0 < length written
    pub reads : Reads written w

small_info : (v : ℕ) → ltb (head_info v) 24 ≡ true → (head_info v ≡ v) × (length (head_tail v) ≡ 0)
unfolding head_info head_tail
small_info v h = ground arith

pub decode_integer_raw-head :
    {bytes : List ℕ} {p : ℕ} (m v : ℕ) (rest : List ℕ)
    → m < 2
    → v < 2 ^ 64
    → At bytes p (head m v ++ rest)
    → decode_integer_raw bytes p ≡ ok ((if ltb m 1 then pos v else negsuc v), p + length (head m v))
unfolding decode_integer_raw
decode_integer_raw-head m v rest hm hv a =
    rw (dec_read_info-head m v rest (omega arith) a)
      (rw (dec_read_count-head m v rest hv a) (ground arith))

read_float-At :
    {A : Type 0} {bytes : List ℕ} (p k v : ℕ) (rest : List ℕ)
    → v < 256 ^ k
    → At bytes (p + 1) (to_be k v ++ rest)
    → (g : ℕ → A) → then_ok (read_float bytes p k) g ≡ ok (g v, p + suc (length (to_be k v)))
read_float-At {bytes = bytes} p k v rest h a g =
    let len : length (to_be k v) ≡ k = length-to_be k v in
    let end : p + 1 + k ≤ length bytes = omega (arith, a.inside, length-append (to_be k v) rest) in
    let got : take k (drop (p + 1) bytes) ≡ to_be k v =
      rw a.suffix (rw length-to_be at (take-append (to_be k v) rest)) in
    rw (ge→ltb _ _ end)
      (rw got (rw (from_be-to_be k v h) (ap (λ (q : ℕ). ok (g v, q)) (omega arith))))

module _ {Time Decimal : Type 0} (calls : Calls Time Decimal) where
  pub pos-Reads : (n : ℕ) → n < 2 ^ 64 → Reads calls (head 0 n) (int (pos n))
  unfolding decode_major
  pos-Reads n h bytes p zero rest a hf = absurd (omega arith)
  pos-Reads n h bytes p (suc f) rest a hf =
      decode_value-head calls f 0 n rest (omega arith) a
      ∙ ground (arith, small_info n, decode_integer_raw-head 0 n rest (omega arith) h a)

  pub negsuc-Reads : (n : ℕ) → n < 2 ^ 64 → Reads calls (head 1 n) (int (negsuc n))
  unfolding decode_major
  negsuc-Reads n h bytes p zero rest a hf = absurd (omega arith)
  negsuc-Reads n h bytes p (suc f) rest a hf =
      decode_value-head calls f 1 n rest (omega arith) a
      ∙ ground (arith, small_info n, decode_integer_raw-head 1 n rest (omega arith) h a)

  pub text-Reads :
      (bs : List ℕ) → length bs < 2 ^ 64 → Reads calls (head 3 (length bs) ++ bs) (str utf8 bs)
  unfolding decode_major
  text-Reads bs h bytes p zero rest a hf = absurd (omega arith)
  text-Reads bs h bytes p (suc f) rest a hf =
      decode_value-head calls f 3 (length bs) (bs ++ rest) (omega arith) (rw append_assoc at a)
      ∙ ground (
        arith,
        head_info_bound (length bs),
        decode_text_raw-read_chunk bytes p a.small,
        read_chunk-head 3 bs rest (omega arith) h a,
      )

  pub binary-Reads :
      (bs : List ℕ) → length bs < 2 ^ 64 → Reads calls (head 2 (length bs) ++ bs) (str binary bs)
  unfolding decode_major decode_binary_raw
  binary-Reads bs h bytes p zero rest a hf = absurd (omega arith)
  binary-Reads bs h bytes p (suc f) rest a hf =
      decode_value-head calls f 2 (length bs) (bs ++ rest) (omega arith) (rw append_assoc at a)
      ∙ ground (arith, head_info_bound (length bs), read_chunk-head 2 bs rest (omega arith) h a)

  -- A float of eight bytes, and one of four.
  pub double-Reads : (val : ℕ) → val < 2 ^ 64 → Reads calls (0xfb ∷ to_be 8 val) (float val)
  unfolding decode_major decode_simple
  double-Reads val h bytes p zero rest a hf = absurd (omega arith)
  double-Reads val h bytes p (suc f) rest a hf =
      decode_value-byte calls f 0xfb (to_be 8 val ++ rest) (omega arith) a
      ∙ read_float-At p 8 val rest h (At-next _ _ a) float

  pub single-Reads : (val : ℕ) → val < 2 ^ 32 → Reads calls (0xfa ∷ to_be 4 val) (float (widen val))
  unfolding decode_major decode_simple
  single-Reads val h bytes p zero rest a hf = absurd (omega arith)
  single-Reads val h bytes p (suc f) rest a hf =
      decode_value-byte calls f 0xfa (to_be 4 val ++ rest) (omega arith) a
      ∙ read_float-At p 4 val rest h (At-next _ _ a) (λ b. float (widen b))

  pub simple-Reads :
      (b : ℕ) (w : Value Time Decimal)
      → b < 256
      → ((bytes : List ℕ) (p : ℕ) (g : ℕ → Result (Value Time Decimal × ℕ))
          → decode_major calls bytes g p (b / 2 ^ 5) (b % 32) ≡ ok (w, p + 1))
      → Reads calls (b ∷ []) w
  simple-Reads b w hb h bytes p zero rest a hf = absurd (omega arith)
  simple-Reads b w hb h bytes p (suc f) rest a hf =
      decode_value-byte calls f b rest hb a ∙ h bytes p (λ q. decode_value calls f bytes q)
