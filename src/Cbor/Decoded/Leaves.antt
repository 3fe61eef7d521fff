-- ===== src/Cbor/Decoded/Leaves.antt =====
-- Simple values and decimals that ext/aws_crt/src/cbor.rs decodes have the shape of Cbor.Decoded.Shape.
use aws_crt.Prelude.{ℕ, ◌+◌, ◌*◌, ◌^◌, ◌<◌, ◌==◌, List, length, arith, inl, inr, String, ◌⊎◌}
use aws_crt.Cbor.Value.{Value, float}
use aws_crt.Cbor.Calls.{Calls}
use aws_crt.Cbor.Result.{Result, ◌>>=◌}
use aws_crt.Cbor.Result.Makes.{Makes, made, refused, Makes-bind, Makes-if}
use aws_crt.Cbor.Float.Widths.{widen_bound, bit_length_le}
use aws_crt.Cbor.Float.{bit_length}
use aws_crt.Cbor.Read.{from_ruby}
use aws_crt.Cbor.Decode.{decode_bigdec_raw, decode_simple}
use aws_crt.Cbor.Decoded.Numbers.{AreBytes}
use aws_crt.Cbor.Decoded.Shape.{Shape}
use aws_crt.Cbor.Decoded.Readers.{
  then_ok-Makes, head-Makes, decode_integer_raw-Makes, decode_half_raw-Makes, read_float-Makes,
}

abbrev pub IsShape : {Time Decimal : Type 0} → Calls Time Decimal → Value Time Decimal → ℕ → Type 0
IsShape calls v q = Shape calls v

pub from_ruby-Makes :
    {A B : Type 0} {P : B → ℕ → Type 0} (r : String ⊎ A) (g : A → Result (B × ℕ))
    → ((a : A) → Makes P (g a))
    → Makes P (from_ruby r >>= g)
from_ruby-Makes (inl m) g f = refused
from_ruby-Makes (inr a) g f = f a

pub short : (n : ℕ) → n < 24 → bit_length n < 2 ^ 64
short n h = omega (arith, bit_length_le n 5 (omega arith))

module _ {Time Decimal : Type 0} (calls : Calls Time Decimal) (bytes : List ℕ)
    (valid : AreBytes bytes) (small : 8 * length bytes + 64 < 2 ^ 64) where
  pub decode_simple-Makes : (p ai : ℕ) → Makes (IsShape calls) (decode_simple calls bytes p ai)
  unfolding decode_simple
  decode_simple-Makes p ai =
      Makes-if (ai == 20) (λ e. made (Shape.bool _))
        (λ e.
          Makes-if (ai == 21) (λ e. made (Shape.bool _))
            (λ e.
              Makes-if (ai == 22) (λ e. made Shape.nil)
                (λ e.
                  Makes-if (ai == 23) (λ e. made (Shape.symbol _))
                    (λ e.
                      Makes-if (ai == 25)
                        (λ e.
                          then_ok-Makes float (decode_half_raw-Makes bytes valid small p)
                            (λ f q h. Shape.float f h))
                        (λ e.
                          Makes-if (ai == 26)
                            (λ e.
                              then_ok-Makes _ (read_float-Makes bytes valid small p 4)
                                (λ b q h. Shape.float _ (widen_bound b (omega arith))))
                            (λ e.
                              Makes-if (ai == 27)
                                (λ e.
                                  then_ok-Makes float (read_float-Makes bytes valid small p 8)
                                    (λ f q h. Shape.float f (omega arith)))
                                (λ e. Makes-if (ai == 31) (λ e. refused) (λ e. refused))))))))

  pub decode_bigdec_raw-Makes : (p : ℕ) → Makes (IsShape calls) (decode_bigdec_raw calls bytes p)
  unfolding decode_bigdec_raw
  decode_bigdec_raw-Makes p = head-Makes bytes valid small p _ (λ info len q v le hq.
      Makes-if (len == 2)
        (λ e. Makes-bind _ (decode_integer_raw-Makes bytes valid small q) (λ x q₁ h₁.
          Makes-bind _ (decode_integer_raw-Makes bytes valid small q₁)
            (λ m q₂ h₂. from_ruby-Makes (calls.scaled m x) _ (λ d. made (Shape.decimal d)))))
        (λ e. refused))
