-- ===== src/Cbor/Result.antt =====
-- The outcomes of the CBOR code: the exception classes of AwsCrt::Cbor with the data of their
-- messages, Rust panics, and the end of the model's fuel.
pub mod Within
pub mod Makes
use aws_crt.Prelude.{ℕ, String, List}
use aws_crt.Prelude.Int.{ℤ}

pub data Error : Type 0 where
  out_of_bytes : ℕ → ℤ → Error
  extra_bytes : ℕ → Error
  unknown_type : String → Error
  unexpected_additional_info : ℕ → Error
  unexpected_break_code : Error
  -- `AwsCrt::Cbor::Error` itself, with its four messages.
  reserved_info expected_integer expected_pair invalid_bignum_tag : ℕ → Error
  -- An exception that a call into Ruby raised.
  raised : String → Error

-- `panicked` is a Rust panic; `out_of_fuel` has no counterpart in the program.
pub data Result {ℓ} (A : Type ℓ) : Type ℓ where
  ok : A → Result A
  err : Error → Result A
  panicked out_of_fuel : Result A

infixl 5 ◌>>=◌
abbrev pub ◌>>=◌ {ℓ κ} : {A : Type ℓ} {B : Type κ} → Result A → (A → Result B) → Result B
ok a >>= f = f a
err e >>= f = err e
panicked >>= f = panicked
out_of_fuel >>= f = out_of_fuel

-- An encoder appends to a buffer. It stops at its first error, and what was written stays written.
pub data Written : Type 0 where
  done : List ℕ → Written
  failed : List ℕ → Error → Written

abbrev pub and_then : Written → (List ℕ → Written) → Written
and_then (done buf) k = k buf
and_then (failed buf e) k = failed buf e

abbrev pub buffer : Written → List ℕ
buffer (done buf) = buf
buffer (failed buf e) = buf
