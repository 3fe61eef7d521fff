-- ===== src/Checksums/Reference.antt =====
-- The cyclic redundancy checks that ext/aws_crt/src/lib.rs names, one bit at a time: the register has its
-- lowest bit first, and begins and ends inverted.
use native.Mathlib.Nat.{pow-suc}
use aws_crt.Prelude.{
  Bool, List, [], ap, append_assoc, arith, codes, false, if◌then◌else◌, length, not, refl, subst,
  suc, sym, true, zero, ℕ, ◌%◌, ◌*◌, ◌++◌, ◌+◌, ◌/◌, ◌<◌, ◌==◌, ◌^◌, ◌∙◌, ◌∷◌, ◌≡◌,
}

abbrev to_bits : ℕ → ℕ → List Bool
to_bits zero n = []
to_bits (suc width) n = (n % 2 == 1) ∷ to_bits width (n / 2)

abbrev of_bits : List Bool → ℕ
of_bits [] = 0
of_bits (b ∷ bs) = (if b then 1 else 0) + 2 * of_bits bs

abbrev invert : List Bool → List Bool
invert [] = []
invert (b ∷ bs) = not b ∷ invert bs

abbrev bit_xor : Bool → Bool → Bool
bit_xor a b = if a then not b else b

abbrev bits_xor : List Bool → List Bool → List Bool
bits_xor [] q = []
bits_xor (a ∷ p) [] = a ∷ p
bits_xor (a ∷ p) (b ∷ q) = bit_xor a b ∷ bits_xor p q

-- One bit of the data: the register is shifted down, and the polynomial is added where its lowest bit
-- differs from the data's.
abbrev shift : List Bool → List Bool → Bool → List Bool
shift poly [] bit = []
shift poly (r ∷ rs) bit =
    let down = rs ++ (false ∷ []) in if bit_xor r bit then bits_xor down poly else down

abbrev feed : List Bool → List Bool → List Bool → List Bool
feed poly register [] = register
feed poly register (b ∷ bs) = feed poly (shift poly register b) bs

abbrev bits_of : List ℕ → List Bool
bits_of [] = []
bits_of (b ∷ bs) = to_bits 8 b ++ bits_of bs

-- The check of some bytes, carried on from a previous one.
unfoldable pub crc : ℕ → ℕ → List ℕ → ℕ → ℕ
crc width polynomial bytes previous =
    of_bits
      (invert (feed (to_bits width polynomial) (invert (to_bits width previous)) (bits_of bytes)))

-- CRC-32 of Ethernet and gzip, CRC-32C of Castagnoli and CRC-64/NVME, the polynomials in reverse.
abbrev pub ethernet : ℕ
ethernet = 0xedb88320

abbrev pub castagnoli : ℕ
castagnoli = 0x82f63b78

abbrev pub nvme : ℕ
nvme = 0x9a6c9329ac4bc9b5

-- The check values of the three.
ethernet_check : crc 32 ethernet (codes "123456789") 0 ≡ 0xcbf43926
unfolding crc codes
ethernet_check = refl

castagnoli_check : crc 32 castagnoli (codes "123456789") 0 ≡ 0xe3069283
unfolding crc codes
castagnoli_check = refl

nvme_check : crc 64 nvme (codes "123456789") 0 ≡ 0xae8b14860a799888
unfolding crc codes
nvme_check = refl

length-to_bits : (width n : ℕ) → length (to_bits width n) ≡ width
length-to_bits zero n = refl
length-to_bits (suc width) n = ap (λ k. suc k) (length-to_bits width (n / 2))

length-invert : (bs : List Bool) → length (invert bs) ≡ length bs
length-invert [] = refl
length-invert (b ∷ bs) = ap (λ k. suc k) (length-invert bs)

invert-invert : (bs : List Bool) → invert (invert bs) ≡ bs
invert-invert [] = refl
invert-invert (true ∷ bs) = ap (λ l. true ∷ l) (invert-invert bs)
invert-invert (false ∷ bs) = ap (λ l. false ∷ l) (invert-invert bs)

length-bits_xor : (p q : List Bool) → length (bits_xor p q) ≡ length p
length-bits_xor [] q = refl
length-bits_xor (a ∷ p) [] = refl
length-bits_xor (a ∷ p) (b ∷ q) = ap (λ k. suc k) (length-bits_xor p q)

length-down : (bs : List Bool) → length (bs ++ (false ∷ [])) ≡ suc (length bs)
length-down [] = refl
length-down (b ∷ bs) = ap (λ k. suc k) (length-down bs)

length-shift :
    (poly register : List Bool) (b : Bool) → length (shift poly register b) ≡ length register
length-shift poly [] b = refl
length-shift poly (r ∷ rs) b = chosen (bit_xor r b)
  where
    chosen :
        (added : Bool)
        → length (if added then bits_xor (rs ++ (false ∷ [])) poly else rs ++ (false ∷ []))
          ≡ suc (length rs)
    chosen true = length-bits_xor (rs ++ (false ∷ [])) poly ∙ length-down rs
    chosen false = length-down rs

length-feed : (poly register bs : List Bool) → length (feed poly register bs) ≡ length register
length-feed poly register [] = refl
length-feed poly register (b ∷ bs) =
    length-feed poly (shift poly register b) bs ∙ length-shift poly register b

to_bits-of_bits : (bs : List Bool) → to_bits (length bs) (of_bits bs) ≡ bs
to_bits-of_bits [] = refl
to_bits-of_bits (true ∷ bs) =
    let half : (1 + 2 * of_bits bs) / 2 ≡ of_bits bs = omega arith in
    let low : ((1 + 2 * of_bits bs) % 2 == 1) ≡ true = ground arith in
    rw (half, low) (ap (λ l. true ∷ l) (to_bits-of_bits bs))
to_bits-of_bits (false ∷ bs) =
    let half : (0 + 2 * of_bits bs) / 2 ≡ of_bits bs = omega arith in
    let low : ((0 + 2 * of_bits bs) % 2 == 1) ≡ false = ground arith in
    rw (half, low) (ap (λ l. false ∷ l) (to_bits-of_bits bs))

of_bits_bound : (bs : List Bool) → of_bits bs < 2 ^ length bs
of_bits_bound [] = omega arith
of_bits_bound (true ∷ bs) = omega (arith, of_bits_bound bs, pow-suc 2 (length bs))
of_bits_bound (false ∷ bs) = omega (arith, of_bits_bound bs, pow-suc 2 (length bs))

feed-append :
    (poly register as' bs : List Bool)
    → feed poly register (as' ++ bs) ≡ feed poly (feed poly register as') bs
feed-append poly register [] bs = refl
feed-append poly register (a ∷ as') bs = feed-append poly (shift poly register a) as' bs

bits_of-append : (a b : List ℕ) → bits_of (a ++ b) ≡ bits_of a ++ bits_of b
bits_of-append [] b = refl
bits_of-append (c ∷ a) b =
    ap (λ l. to_bits 8 c ++ l) (bits_of-append a b)
    ∙ sym (append_assoc (to_bits 8 c) (bits_of a) (bits_of b))

module _ (width polynomial : ℕ) where
  abbrev register : List ℕ → ℕ → List Bool
  register bytes previous =
      feed (to_bits width polynomial) (invert (to_bits width previous)) (bits_of bytes)

  length-register :
      (bytes : List ℕ) (previous : ℕ) → length (invert (register bytes previous)) ≡ width
  length-register bytes previous =
      length-invert (register bytes previous)
      ∙ length-feed (to_bits width polynomial) (invert (to_bits width previous)) (bits_of bytes)
      ∙ length-invert (to_bits width previous)
      ∙ length-to_bits width previous

  -- The check as a number has the bits of the register.
  to_bits-crc :
      (bytes : List ℕ) (previous : ℕ)
      → to_bits width (crc width polynomial bytes previous) ≡ invert (register bytes previous)
  unfolding crc
  to_bits-crc bytes previous =
      let bs = invert (register bytes previous) in
      ap (λ w. to_bits w (of_bits bs)) (sym (length-register bytes previous)) ∙ to_bits-of_bits bs

  -- A check of whatever previous one fits its width.
  pub crc_bound : (bytes : List ℕ) (previous : ℕ) → crc width polynomial bytes previous < 2 ^ width
  unfolding crc
  crc_bound bytes previous =
      subst (λ w. of_bits (invert (register bytes previous)) < 2 ^ w)
        (length-register bytes previous) (of_bits_bound (invert (register bytes previous)))

  -- The check of data in two parts is carried on from the first.
  pub crc-append :
      (a b : List ℕ) (previous : ℕ)
      → crc width polynomial b (crc width polynomial a previous)
        ≡ crc width polynomial (a ++ b) previous
  unfolding crc
  crc-append a b previous =
      let poly = to_bits width polynomial in
      let from = invert (to_bits width previous) in
      ap (λ r. of_bits (invert (feed poly (invert r) (bits_of b)))) (to_bits-crc a previous)
      ∙ ap (λ r. of_bits (invert (feed poly r (bits_of b)))) (invert-invert (register a previous))
      ∙ ap (λ r. of_bits (invert r))
          (sym (feed-append poly from (bits_of a) (bits_of b))
            ∙ ap (λ l. feed poly from l) (sym (bits_of-append a b)))
