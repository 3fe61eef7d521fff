-- ===== src/Checksums.antt =====
-- ext/aws_crt/src/lib.rs: the module functions of AwsCrt::Checksums.
pub mod Reference
pub mod Chained
pub mod Tests
use aws_crt.Prelude.{Bool, List, Option, if◌then◌else◌, none, some, ℕ, ◌^◌}

-- Ruby and magnus: the test for nil, the conversion to an unsigned number of a width, which may raise,
-- and the Integer of a number.
pub record Numbers (Value : Type 0) : Type 0 where
  pub is_nil : Value → Bool
  pub to_unsigned : ℕ → Value → Option ℕ
  pub of_unsigned : ℕ → Value

-- The checksum functions of the CRT, of the bytes and the previous checksum.
pub record CrtChecksums : Type 0 where
  pub aws_checksums_crc32_ex : List ℕ → ℕ → ℕ
  pub aws_checksums_crc32c_ex : List ℕ → ℕ → ℕ
  pub aws_checksums_crc64nvme_ex : List ℕ → ℕ → ℕ

module _ {Value : Type 0} (numbers : Numbers Value) where
  -- A missing value and nil are 0; `none` is an exception.
  unfoldable pub parse_previous : ℕ → Option Value → Option ℕ
  parse_previous width none = some 0
  parse_previous width (some v) =
      if numbers.is_nil v then some 0 else numbers.to_unsigned (2 ^ width) v

  abbrev pub of_previous : (ℕ → ℕ) → Option ℕ → Option ℕ
  of_previous f none = none
  of_previous f (some previous) = some (f previous)

  unfoldable pub crc32 : CrtChecksums → List ℕ → Option Value → Option ℕ
  crc32 crt bytes val = of_previous (crt.aws_checksums_crc32_ex bytes) (parse_previous 32 val)

  unfoldable pub crc32c : CrtChecksums → List ℕ → Option Value → Option ℕ
  crc32c crt bytes val = of_previous (crt.aws_checksums_crc32c_ex bytes) (parse_previous 32 val)

  unfoldable pub crc64nvme : CrtChecksums → List ℕ → Option Value → Option ℕ
  crc64nvme crt bytes val =
      of_previous (crt.aws_checksums_crc64nvme_ex bytes) (parse_previous 64 val)
