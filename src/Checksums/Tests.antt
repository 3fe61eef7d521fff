-- ===== src/Checksums/Tests.antt =====
-- Checksums of ext/aws_crt/src/lib.rs with the reference checks as the functions of the CRT.
use aws_crt.Prelude.{
  List, [], arith, codes, false, if◌then◌else◌, ltb, none, refl, some, ℕ, ◌++◌, ◌∷◌, ◌≡◌,
}
use aws_crt.Checksums.{CrtChecksums, Numbers, crc32, crc32c, crc64nvme}
use aws_crt.Checksums.Reference.{castagnoli, crc, ethernet, nvme}
use aws_crt.Checksums.Chained.{Converts, Documented, checksums-crc, concat, then_of}

abbrev crt : CrtChecksums
crt = record {
  aws_checksums_crc32_ex = crc 32 ethernet;
  aws_checksums_crc32c_ex = crc 32 castagnoli;
  aws_checksums_crc64nvme_ex = crc 64 nvme;
}

crt-Documented : Documented crt
crt-Documented = record {
  crc32_ex = λ bytes n h. refl;
  crc32c_ex = λ bytes n h. refl;
  crc64nvme_ex = λ bytes n h. refl;
}

abbrev integers : Numbers ℕ
integers = record {
  is_nil = λ n. false;
  to_unsigned = λ bound n. if ltb n bound then some n else none;
  of_unsigned = λ n. n;
}

integers-Converts : Converts integers
integers-Converts = record { not_nil = λ n. refl; back = λ bound n h. ground arith }

abbrev parts : List (List ℕ)
parts = codes "456" ∷ [] ∷ codes "789" ∷ []

checksums-crc_example :
    (then_of integers (crc32 integers crt) (crc32 integers crt (codes "123") none) parts
      ≡ some (crc 32 ethernet (codes "123" ++ concat parts) 0))
    × (then_of integers (crc32c integers crt) (crc32c integers crt (codes "123") none) parts
        ≡ some (crc 32 castagnoli (codes "123" ++ concat parts) 0))
    × (then_of integers (crc64nvme integers crt) (crc64nvme integers crt (codes "123") none) parts
        ≡ some (crc 64 nvme (codes "123" ++ concat parts) 0))
checksums-crc_example =
    checksums-crc integers integers-Converts crt crt-Documented (codes "123") parts
