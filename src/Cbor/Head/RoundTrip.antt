-- ===== src/Cbor/Head/RoundTrip.antt =====
-- A head that write_head wrote is read back: first its major type and additional information, then
-- its count.
use aws_crt.Prelude.{
  ℕ, ◌+◌, ◌*◌, ◌/◌, ◌%◌, ◌^◌, ◌≤◌, ◌<◌, ◌≡◌, ◌⊎◌, leb→le, refl, ◌∙◌, List, [], ◌∷◌, ◌++◌,
  append_assoc, arith, length, true, false, inl, inr, leb, if◌then◌else◌, Bool-cases, to_be,
  length-to_be, from_be-to_be, join_head,
}
use native.Mathlib.Nat.{add-zero}
use aws_crt.Cbor.Result.{ok}
use aws_crt.Cbor.Encode.{write_head}
use aws_crt.Cbor.Head.{dec_take, dec_read_info, dec_read_count, read_word}
use aws_crt.Cbor.Head.Position.{At, dec_take-At, dec_read_info-At}

-- The additional information for a count, and the bytes of the count that follow the first.
unfoldable pub head_info : ℕ → ℕ
head_info v =
    if leb v 23
    then v
    else if leb v 0xff
    then 24
    else if leb v 0xffff
    then 25
    else if leb v 0xffff_ffff
    then 26
    else 27

unfoldable pub head_tail : ℕ → List ℕ
head_tail v =
    if leb v 23
    then []
    else if leb v 0xff
    then to_be 1 v
    else if leb v 0xffff
    then to_be 2 v
    else if leb v 0xffff_ffff
    then to_be 4 v
    else to_be 8 v

abbrev pub head : ℕ → ℕ → List ℕ
head m v = (m * 32 + head_info v) ∷ head_tail v

-- Which of the five widths a count takes, by the tests of write_head.
abbrev Width : ℕ → Type 0
Width v =
    (leb v 23 ≡ true)
    ⊎ (((leb v 23 ≡ false) × (leb v 0xff ≡ true))
        ⊎ (((leb v 23 ≡ false) × (leb v 0xff ≡ false) × (leb v 0xffff ≡ true))
            ⊎ (((leb v 23 ≡ false)
                  × (leb v 0xff ≡ false)
                  × (leb v 0xffff ≡ false)
                  × (leb v 0xffff_ffff ≡ true))
                ⊎ ((leb v 23 ≡ false)
                    × (leb v 0xff ≡ false)
                    × (leb v 0xffff ≡ false)
                    × (leb v 0xffff_ffff ≡ false)))))

count_cases : (v : ℕ) → Width v
count_cases v = elim (Bool-cases (leb v 23)) [
  | inl e ↦ inl e
  | inr e ↦ elim (Bool-cases (leb v 0xff)) [
    | inl f ↦ inr (inl (e, f))
    | inr f ↦ elim (Bool-cases (leb v 0xffff)) [
      | inl g ↦ inr (inr (inl (e, f, g)))
      | inr g ↦ elim (Bool-cases (leb v 0xffff_ffff)) [
        | inl h ↦ inr (inr (inr (inl (e, f, g, h))))
        | inr h ↦ inr (inr (inr (inr (e, f, g, h))))
      ]
    ]
  ]
]

one_byte : (v : ℕ) → v / 1 % 256 ≡ v % 2 ^ 8
one_byte v = omega arith

pub head_info_bound : (v : ℕ) → head_info v ≤ 27
unfolding head_info
head_info_bound v = ground arith

pub write_head-head :
    (buf : List ℕ) (m v : ℕ) → m < 8 → v < 2 ^ 64 → write_head buf (m * 32) v ≡ buf ++ head m v
unfolding write_head head_info head_tail to_be
write_head-head buf m v hm hv = elim (count_cases v) [
  | inl e ↦
      let low : v % 2 ^ 8 ≡ v = omega (arith, leb→le v 23 e) in
      rw (e) (rw low (rw (join_head m v hm (omega (arith, leb→le v 23 e))) refl))
  | inr (inl (e, f)) ↦
      rw (e, f) (rw (join_head m 24 hm (omega arith), append_assoc) (rw (one_byte v)))
  | inr (inr (inl (e, f, g))) ↦
      let low : v % 2 ^ 16 ≡ v = omega (arith, leb→le v 0xffff g) in
      rw (e, f, g, low) (rw (join_head m 25 hm (omega arith), append_assoc))
  | inr (inr (inr (inl (e, f, g, h)))) ↦
      let low : v % 2 ^ 32 ≡ v = omega (arith, leb→le v 0xffff_ffff h) in
      rw (e, f, g, h, low) (rw (join_head m 26 hm (omega arith), append_assoc))
  | inr (inr (inr (inr (e, f, g, h)))) ↦
      rw (e, f, g, h) (rw (join_head m 27 hm (omega arith), append_assoc))
]

pub read_word-At :
    {bytes : List ℕ} {p : ℕ} (k v : ℕ) (rest : List ℕ)
    → v < 256 ^ k
    → At bytes p (to_be k v ++ rest)
    → read_word bytes p k ≡ ok (v, p + length (to_be k v))
read_word-At {bytes} {p} k v rest h a =
    let taken : dec_take bytes p k ≡ ok (to_be k v, p + k) =
      rw length-to_be at (dec_take-At (to_be k v) rest a) in
    rw (taken, length-to_be) (rw (from_be-to_be k v h))

pub dec_read_count-At :
    {bytes : List ℕ} {p : ℕ} (v : ℕ) (rest : List ℕ)
    → v < 2 ^ 64
    → At bytes p (head_tail v ++ rest)
    → dec_read_count bytes p (head_info v) ≡ ok (v, p + length (head_tail v))
unfolding dec_read_count head_tail head_info
dec_read_count-At v rest lt a = elim (count_cases v) [
  | inl e ↦ rw (e) (rw e (rw add-zero))
  | inr (inl (e, f)) ↦
      rw (e, f) (read_word-At 1 v rest (omega (arith, leb→le v 0xff f)) (rw (e, f) at a))
  | inr (inr (inl (e, f, g))) ↦
      rw (e, f, g) (read_word-At 2 v rest (omega (arith, leb→le v 0xffff g)) (rw (e, f, g) at a))
  | inr (inr (inr (inl (e, f, g, h)))) ↦
      rw (e, f, g, h)
        (read_word-At 4 v rest (omega (arith, leb→le v 0xffff_ffff h)) (rw (e, f, g, h) at a))
  | inr (inr (inr (inr (e, f, g, h)))) ↦
      rw (e, f, g, h) (read_word-At 8 v rest (omega arith) (rw (e, f, g, h) at a))
]

pub dec_read_info-head :
    {bytes : List ℕ} {p : ℕ} (m v : ℕ) (rest : List ℕ)
    → m < 8
    → At bytes p (head m v ++ rest)
    → dec_read_info bytes p ≡ ok ((m, head_info v), p + 1)
dec_read_info-head {bytes} {p} m v rest h a =
    let low = head_info_bound v in
    let top : (m * 32 + head_info v) / 2 ^ 5 ≡ m = omega (arith, low) in
    let bottom : (m * 32 + head_info v) % 32 ≡ head_info v = omega (arith, low) in
    dec_read_info-At _ _ a (omega (arith, low)) ∙ rw (top, bottom)
