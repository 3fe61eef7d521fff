-- ===== src/S3/Ruby.antt =====
-- ext/aws_crt/src/s3_ruby.rs: what the methods of AwsCrt::S3::Client read from their hashes.
pub mod Reply
pub mod Fetched
pub mod Params
pub mod Methods
pub mod Sendable
use aws_crt.Prelude.{Bool, List, Option, if◌then◌else◌, none, some, ℕ, ◌^◌}

-- The errors that the methods raise, and one that Ruby raised in a lookup, a conversion or a call.
pub data RubyError : Type 0 where
  missing_required_option : List ℕ → RubyError
  invalid_checksum_algorithm : List ℕ → RubyError
  s3_client_not_initialized : RubyError
  raised : List ℕ → RubyError

pub data Outcome (A : Type 0) : Type 0 where
  value : A → Outcome A
  error : RubyError → Outcome A

infixl 5 ◌>>=◌
abbrev pub ◌>>=◌ : {A B : Type 0} → Outcome A → (A → Outcome B) → Outcome B
value a >>= f = f a
error e >>= f = error e

abbrev pub and_then : {A B : Type 0} → Outcome A → (A → Outcome B) → Outcome B
and_then m f = m >>= f

-- Ruby and magnus: the lookup of a symbol in a hash, and the conversions and calls of a value. F is the
-- type of floats.
pub record Ruby (Value Hash F : Type 0) : Type 0 where
  pub lookup : Hash → List ℕ → Outcome (Option Value)
  pub is_nil : Value → Bool
  pub to_text : Value → Outcome (List ℕ)
  pub to_unsigned : ℕ → Value → Outcome ℕ
  pub to_float : Value → Outcome F
  pub ten : F
  pub to_rstring : Value → Option (List ℕ)
  pub as_str : List ℕ → Outcome (List ℕ)
  pub respond_to_path : Value → Bool
  pub path : Value → Outcome (List ℕ)
  pub read : Value → Outcome (List ℕ)

module _ {Value Hash F : Type 0} (ruby : Ruby Value Hash F) where
  -- A missing key and nil are the default.
  unfoldable pub or_default : {A : Type 0} → (Value → Outcome A) → A → Option Value → Outcome A
  or_default convert default none = value default
  or_default convert default (some v) = if ruby.is_nil v then value default else convert v

  unfoldable pub hash_get_string : Hash → List ℕ → Outcome (Option (List ℕ))
  hash_get_string hash key =
      ruby.lookup hash key >>= or_default (λ v. ruby.to_text v >>= λ s. value (some s)) none

  abbrev required : List ℕ → Option (List ℕ) → Outcome (List ℕ)
  required key none = error (missing_required_option key)
  required key (some s) = value s

  unfoldable pub hash_get_string_required : Hash → List ℕ → Outcome (List ℕ)
  hash_get_string_required hash key = hash_get_string hash key >>= required key

  unfoldable pub hash_get_u64 : Hash → List ℕ → ℕ → Outcome ℕ
  hash_get_u64 hash key default =
      ruby.lookup hash key >>= or_default (ruby.to_unsigned (2 ^ 64)) default

  unfoldable pub hash_get_optional_u64 : Hash → List ℕ → Outcome (Option ℕ)
  hash_get_optional_u64 hash key =
      ruby.lookup hash key
      >>= or_default (λ v. ruby.to_unsigned (2 ^ 64) v >>= λ n. value (some n)) none

  unfoldable pub hash_get_u32 : Hash → List ℕ → ℕ → Outcome ℕ
  hash_get_u32 hash key default =
      ruby.lookup hash key >>= or_default (ruby.to_unsigned (2 ^ 32)) default

  unfoldable pub hash_get_f64 : Hash → List ℕ → F → Outcome F
  hash_get_f64 hash key default = ruby.lookup hash key >>= or_default (ruby.to_float) default

  unfoldable pub hash_get_value : Hash → List ℕ → Outcome (Option Value)
  hash_get_value hash key = ruby.lookup hash key >>= or_default (λ v. value (some v)) none
