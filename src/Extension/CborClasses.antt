-- ===== src/Extension/CborClasses.antt =====
-- What the init of ext/aws_crt/src/cbor.rs leaves: a module in which each of its exception classes
-- can be looked up.
use aws_crt.Prelude.{true, ◌≡◌, some, String, [], ◌∷◌}
use aws_crt.Extension.Vm.{Vm, Extends, Laws}
use aws_crt.Extension.World.{World, or_raise}
use aws_crt.Extension.Classes.{
  class_name, define_cbor_errors, define_tagged, define_coders, cbor_init, cache_classes,
}
use aws_crt.Extension.Facts.{
  constant, parent, Kept, Holds, Post, Post-bind, Post-step, returns, Keeps, Keeps-bind, Post-map,
  Kept-trans, Knows-start,
}
use aws_crt.Extension.Facts.Calls.{
  change_cbor-Adds, or_panic-Adds, define_module-Adds, define_class-Adds, define_method-Adds,
  define_module_function-Adds, define_alloc_func-Adds,
}
use aws_crt.Extension.Inherits.{itself, below, ClassIn, ClassFor, ClassFor-Extends}
use aws_crt.Cbor.Result

module _ {vm : Vm} where
  -- Each error of cbor.rs has its class.
  abbrev pub CborErrors : vm.Object → World vm → Type 0
  CborErrors cbor w = (e : Result.Error) → ClassFor w cbor (vm.standard_error) (class_name e)

  -- The module AwsCrt has a Cbor in which the classes are.
  pub record CborReady (m : vm.Object) (w : World vm) : Type 0 where
    pub cbor : vm.Object
    pub named : vm.const_get m "Cbor" (w.ruby) ≡ some cbor
    pub cbor_module : vm.is_module cbor (w.ruby) ≡ true
    pub errors : CborErrors cbor w

  pub CborReady-Extends :
      {m : vm.Object} {w w' : World vm}
      → Extends vm (w.ruby) (w'.ruby)
      → CborReady m w
      → CborReady m w'
  CborReady-Extends {m} {w} {w'} k r = record {
    cbor = r.cbor;
    named = k.constants m "Cbor" (r.cbor) (r.named);
    cbor_module = k.modules (r.cbor) (r.cbor_module);
    errors = λ e. ClassFor-Extends w w' (r.cbor) (vm.standard_error) (class_name e) k (r.errors e);
  }

  module _ (w : World vm) (cbor : vm.Object) where
    abbrev CborClass : String → Type 0
    CborClass n = ClassIn w cbor n (vm.standard_error)

    class_below :
        {e c : vm.Object} (n : String)
        → vm.const_get cbor n (w.ruby) ≡ some c
        → vm.superclass c (w.ruby) ≡ some e
        → vm.superclass e (w.ruby) ≡ some (vm.standard_error)
        → CborClass n
    class_below {c} n h p q = record { found = c; named = h; descends = below p (below q itself) }

    all_errors :
        CborClass "OutOfBytesError"
        → CborClass "ExtraBytesError"
        → CborClass "UnknownTypeError"
        → CborClass "UnexpectedAdditionalInformationError"
        → CborClass "UnexpectedBreakCodeError"
        → CborClass "Error"
        → CborErrors cbor w
    unfolding class_name
    all_errors c₁ c₂ c₃ c₄ c₅ c (Result.out_of_bytes n k) = c₁
    all_errors c₁ c₂ c₃ c₄ c₅ c (Result.extra_bytes n) = c₂
    all_errors c₁ c₂ c₃ c₄ c₅ c (Result.unknown_type t) = c₃
    all_errors c₁ c₂ c₃ c₄ c₅ c (Result.unexpected_additional_info n) = c₄
    all_errors c₁ c₂ c₃ c₄ c₅ c Result.unexpected_break_code = c₅
    all_errors c₁ c₂ c₃ c₄ c₅ c (Result.reserved_info n) = c
    all_errors c₁ c₂ c₃ c₄ c₅ c (Result.expected_integer n) = c
    all_errors c₁ c₂ c₃ c₄ c₅ c (Result.expected_pair n) = c
    all_errors c₁ c₂ c₃ c₄ c₅ c (Result.invalid_bignum_tag n) = c
    all_errors c₁ c₂ c₃ c₄ c₅ c (Result.raised m) = tt

module _ {vm : Vm} (laws : Laws vm) where
  define_cbor_errors-Knows :
      (cbor : vm.Object) (w : World vm)
      → Post (λ _ w'. CborErrors cbor w' × Kept w w') (define_cbor_errors vm cbor w)
  unfolding define_cbor_errors or_raise
  define_cbor_errors-Knows cbor w = rw (laws.eval_standard_error (w.ruby)) (
      Post-step (Knows-start w) (define_class-Adds laws _ _ _ w) (λ e w₁ h₁.
        Post-step h₁ (define_class-Adds laws _ _ _ w₁) (λ c₁ w₂ h₂.
          Post-step h₂ (define_class-Adds laws _ _ _ w₂) (λ c₂ w₃ h₃.
            Post-step h₃ (define_class-Adds laws _ _ _ w₃) (λ c₃ w₄ h₄.
              Post-step h₄ (define_class-Adds laws _ _ _ w₄) (λ c₄ w₅ h₅.
                Post-step h₅ (define_class-Adds laws _ _ _ w₅)
                  (λ c₅ w₆ h₆. returns (errors w₆ (h₆.all), h₆.since))))))))
    where
      errors :
          {c₁ c₂ c₃ c₄ c₅ e : vm.Object} (w' : World vm)
          → Holds
              (constant cbor "UnexpectedBreakCodeError" c₅
                ∷ parent c₅ e
                ∷ constant cbor "UnexpectedAdditionalInformationError" c₄
                ∷ parent c₄ e
                ∷ constant cbor "UnknownTypeError" c₃
                ∷ parent c₃ e
                ∷ constant cbor "ExtraBytesError" c₂
                ∷ parent c₂ e
                ∷ constant cbor "OutOfBytesError" c₁
                ∷ parent c₁ e
                ∷ constant cbor "Error" e
                ∷ parent e (vm.standard_error)
                ∷ [])
              w'
          → CborErrors cbor w'
      errors w' (b₅, (p₅, (b₄, (p₄, (b₃, (p₃, (b₂, (p₂, (b₁, (p₁, (b, (p, _)))))))))))) =
          all_errors w' cbor (class_below w' cbor _ b₁ p₁ p) (class_below w' cbor _ b₂ p₂ p)
            (class_below w' cbor _ b₃ p₃ p) (class_below w' cbor _ b₄ p₄ p)
            (class_below w' cbor _ b₅ p₅ p)
            (record { found = _; named = b; descends = below p itself })

  cache_classes-Keeps : (w : World vm) → Keeps w (cache_classes vm w)
  unfolding cache_classes
  cache_classes-Keeps w = Keeps-bind (or_panic-Adds _ w) (λ time w₁.
      Keeps-bind (change_cbor-Adds _ w₁) (λ _ w₂.
        Keeps-bind (or_panic-Adds _ w₂)
          (λ decimal w₃. Keeps-bind (change_cbor-Adds _ w₃) (λ _ w₄. change_cbor-Adds _ w₄))))

  define_tagged-Keeps : (cbor : vm.Object) (w : World vm) → Keeps w (define_tagged vm cbor w)
  unfolding define_tagged
  define_tagged-Keeps cbor w = Keeps-bind (define_class-Adds laws _ _ _ w) (λ c w₁.
      Keeps-bind (define_alloc_func-Adds laws c w₁) (λ _ w₂.
        Keeps-bind (define_method-Adds laws c _ _ w₂) (λ _ w₃.
          Keeps-bind (define_method-Adds laws c _ _ w₃) (λ _ w₄.
            Keeps-bind (define_method-Adds laws c _ _ w₄)
              (λ _ w₅. Keeps-bind (change_cbor-Adds _ w₅) (λ _ w₆. cache_classes-Keeps w₆))))))

  define_coders-Keeps : (cbor : vm.Object) (w : World vm) → Keeps w (define_coders vm cbor w)
  unfolding define_coders
  define_coders-Keeps cbor w = Keeps-bind (define_class-Adds laws _ _ _ w) (λ c w₁.
      Keeps-bind (define_alloc_func-Adds laws c w₁) (λ _ w₂.
        Keeps-bind (define_method-Adds laws c _ _ w₂) (λ _ w₃.
          Keeps-bind (define_method-Adds laws c _ _ w₃) (λ _ w₄.
            Keeps-bind (define_method-Adds laws c _ _ w₄) (λ _ w₅.
              Keeps-bind (define_class-Adds laws _ _ _ w₅) (λ d w₆.
                Keeps-bind (define_alloc_func-Adds laws d w₆) (λ _ w₇.
                  Keeps-bind (define_method-Adds laws d _ _ w₇) (λ _ w₈.
                    Keeps-bind (define_method-Adds laws d _ _ w₈) (λ _ w₉.
                      Keeps-bind (define_module_function-Adds laws cbor _ _ w₉)
                        (λ _ w'. define_module_function-Adds laws cbor _ _ w'))))))))))

  pub cbor_init-CborReady :
      (m : vm.Object) (w : World vm) → Post (λ _ w'. CborReady m w' × Kept w w') (cbor_init vm m w)
  unfolding cbor_init
  cbor_init-CborReady m w =
      Post-bind ((define_module-Adds laws m "Cbor" w).ends)
        (λ cbor w₁ (k₁, (named, (is_module, _))).
          Post-bind (define_cbor_errors-Knows cbor w₁) (λ _ w₂ (errors, k₂).
            Post-map
              ((Keeps-bind (define_tagged-Keeps cbor w₂)
                (λ _ w₃. define_coders-Keeps cbor w₃)).ends)
              (λ _ w' (k, _). (
                CborReady-Extends (k.ruby) (record {
                  cbor = cbor;
                  named = k₂.ruby.constants m "Cbor" cbor named;
                  cbor_module = k₂.ruby.modules cbor is_module;
                  errors = errors;
                }),
                Kept-trans k₁ (Kept-trans k₂ k),
              ))))
