-- ===== src/Cbor/Calls.antt =====
-- What ext/aws_crt/src/cbor.rs calls and does not define: methods of Ruby's Time and BigDecimal, and
-- the allocation of arrays and hashes by Ruby. A call that raises gives the message.
use aws_crt.Prelude.{ℕ, Bool, List, String, ◌⊎◌}
use aws_crt.Prelude.Int.{ℤ}
use aws_crt.Cbor.Value.{Value}

-- BigDecimal#infinite?, #nan? and #split: a sign, the decimal digits and an exponent.
pub data DecimalParts : Type 0 where
  infinite : ℤ → DecimalParts
  not_a_number : DecimalParts
  finite : ℤ → List ℕ → ℤ → DecimalParts

pub record Calls (Time Decimal : Type 0) : Type 0 where
  -- Time#to_f, as bits, and Time.at.
  pub to_f : Time → ℕ
  pub time_at : Value Time Decimal → String ⊎ Time
  pub parts : Decimal → DecimalParts
  -- BigDecimal(m) * BigDecimal(10) ** BigDecimal(e)
  pub scaled : ℤ → ℤ → String ⊎ Decimal
  -- Whether rb_ary_new_capa and rb_hash_new_capa accept this capacity; they raise otherwise.
  pub ary_capa : ℕ → Bool
  pub hash_capa : ℕ → Bool
