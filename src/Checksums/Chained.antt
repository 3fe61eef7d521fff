-- ===== src/Checksums/Chained.antt =====
-- Checksums of ext/aws_crt/src/lib.rs over data in parts.
use aws_crt.Prelude.{
  List, Option, [], append-nil, append_assoc, ap, arith, false, none, refl, some, sym, ℕ, ◌++◌, ◌<◌,
  ◌^◌, ◌∙◌, ◌∷◌, ◌≡◌,
}
use aws_crt.Checksums.{CrtChecksums, Numbers, crc32, crc32c, crc64nvme, of_previous, parse_previous}
use aws_crt.Checksums.Reference.{castagnoli, crc, crc-append, crc_bound, ethernet, nvme}

-- The CRT's documented behaviour: the three functions are the cyclic redundancy checks of their names.
pub record Documented (crt : CrtChecksums) : Type 0 where
  pub crc32_ex :
      (bytes : List ℕ) (previous : ℕ)
      → previous < 2 ^ 32
      → crt.aws_checksums_crc32_ex bytes previous ≡ crc 32 ethernet bytes previous
  pub crc32c_ex :
      (bytes : List ℕ) (previous : ℕ)
      → previous < 2 ^ 32
      → crt.aws_checksums_crc32c_ex bytes previous ≡ crc 32 castagnoli bytes previous
  pub crc64nvme_ex :
      (bytes : List ℕ) (previous : ℕ)
      → previous < 2 ^ 64
      → crt.aws_checksums_crc64nvme_ex bytes previous ≡ crc 64 nvme bytes previous

-- Ruby's Integers: a number is not nil, and converts back where its width holds it.
pub record Converts {Value : Type 0} (numbers : Numbers Value) : Type 0 where
  pub not_nil : (n : ℕ) → numbers.is_nil (numbers.of_unsigned n) ≡ false
  pub back : (bound n : ℕ) → n < bound → numbers.to_unsigned bound (numbers.of_unsigned n) ≡ some n

-- The checksums of more parts, each with the last one as its previous value.
abbrev pub then_of :
    {Value : Type 0}
    → Numbers Value
    → (List ℕ → Option Value → Option ℕ)
    → Option ℕ
    → List (List ℕ)
    → Option ℕ
then_of numbers f last [] = last
then_of numbers f none (p ∷ ps) = none
then_of numbers f (some last) (p ∷ ps) =
    then_of numbers f (f p (some (numbers.of_unsigned last))) ps

abbrev pub concat : List (List ℕ) → List ℕ
concat [] = []
concat (p ∷ ps) = p ++ concat ps

module _ {Value : Type 0} (numbers : Numbers Value) (converts : Converts numbers) where
  parse_previous-of :
      (width n : ℕ)
      → n < 2 ^ width
      → parse_previous numbers width (some (numbers.of_unsigned n)) ≡ some n
  unfolding parse_previous
  parse_previous-of width n h = rw (converts.not_nil n, converts.back (2 ^ width) n h) refl

  module _ (width polynomial : ℕ) (ext : List ℕ → ℕ → ℕ)
      (documented : (bytes : List ℕ) (previous : ℕ)
        → previous < 2 ^ width
        → ext bytes previous ≡ crc width polynomial bytes previous) where
    abbrev checksum : List ℕ → Option Value → Option ℕ
    checksum bytes val = of_previous numbers (ext bytes) (parse_previous numbers width val)

    checksum-of :
        (bytes : List ℕ) (n : ℕ)
        → n < 2 ^ width
        → checksum bytes (some (numbers.of_unsigned n)) ≡ some (crc width polynomial bytes n)
    checksum-of bytes n h = rw (parse_previous-of width n h) (ap some (documented bytes n h))

    then_of-crc :
        (a : List ℕ) (n : ℕ) (ps : List (List ℕ))
        → then_of numbers checksum (some (crc width polynomial a n)) ps
          ≡ some (crc width polynomial (a ++ concat ps) n)
    then_of-crc a n [] = ap (λ l. some (crc width polynomial l n)) (sym (append-nil a))
    then_of-crc a n (p ∷ ps) =
        ap (λ v. then_of numbers checksum v ps)
          (checksum-of p (crc width polynomial a n) (crc_bound width polynomial a n)
            ∙ ap some (crc-append width polynomial a p n))
        ∙ then_of-crc (a ++ p) n ps
        ∙ ap (λ l. some (crc width polynomial l n)) (append_assoc a p (concat ps))

    chained :
        (a : List ℕ) (ps : List (List ℕ))
        → 0 < 2 ^ width
        → then_of numbers checksum (checksum a none) ps
          ≡ some (crc width polynomial (a ++ concat ps) 0)
    unfolding parse_previous
    chained a ps h =
        ap (λ v. then_of numbers checksum v ps) (ap some (documented a 0 h)) ∙ then_of-crc a 0 ps

  -- Where the CRT's functions are the checks of their names and Integers convert back: crc32, crc32c and
  -- crc64nvme, called for one part of the data after the other, the first time without a previous value
  -- and then with the last checksum as the previous value, give the CRC-32 of Ethernet, the CRC-32C and
  -- the CRC-64/NVME of the whole data, however it is cut.
  pub checksums-crc :
      (crt : CrtChecksums)
      → Documented crt
      → (a : List ℕ) (ps : List (List ℕ))
      → (then_of numbers (crc32 numbers crt) (crc32 numbers crt a none) ps
          ≡ some (crc 32 ethernet (a ++ concat ps) 0))
        × (then_of numbers (crc32c numbers crt) (crc32c numbers crt a none) ps
            ≡ some (crc 32 castagnoli (a ++ concat ps) 0))
        × (then_of numbers (crc64nvme numbers crt) (crc64nvme numbers crt a none) ps
            ≡ some (crc 64 nvme (a ++ concat ps) 0))
  unfolding crc32 crc32c crc64nvme
  checksums-crc crt d a ps = (
    chained 32 ethernet (crt.aws_checksums_crc32_ex) (d.crc32_ex) a ps (omega arith),
    chained 32 castagnoli (crt.aws_checksums_crc32c_ex) (d.crc32c_ex) a ps (omega arith),
    chained 64 nvme (crt.aws_checksums_crc64nvme_ex) (d.crc64nvme_ex) a ps (omega arith),
  )
