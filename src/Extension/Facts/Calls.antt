-- ===== src/Extension/Facts/Calls.antt =====
-- The facts that each call of Ruby makes true while ext/aws_crt/src registers its classes.
use aws_crt.Prelude.{◌≡◌, refl, Option, String, [], ◌∷◌, none, some, inl, inr, Option-cases}
use aws_crt.Prelude.Int.{ℤ}
use aws_crt.Extension.Vm.{Vm, Laws}
use aws_crt.Extension.World.{
  World, CborStatics, M, continue, or_raise, or_panic, change_cbor, define_module, define_class,
  define_method, define_module_function, define_alloc_func,
}
use aws_crt.Extension.Facts.{
  Kept-refl, Post, raises, panics, Adds, Keeps, kept, extended, raised-Adds, constant, parent,
  a_module,
}

module _ {vm : Vm} where
  pub change_cbor-Adds :
      (f : CborStatics (vm.Object) → CborStatics (vm.Object)) (w : World vm)
      → Adds {A = Unit {0}} (λ _. []) w (change_cbor f w)
  unfolding change_cbor
  change_cbor-Adds f w = kept tt (record { ruby = (Kept-refl w).ruby; caches = λ k. refl }) tt

  -- What follows a value that was found.
  pub or_raise-step :
      {A B : Type 0} {P : B → World vm → Type 0} (o : Option A) (f : A → M vm B) {w : World vm}
      → ((a : A) → o ≡ some a → Post P (f a w))
      → Post P (continue (or_raise o w) f)
  unfolding or_raise
  or_raise-step none f k = raises
  or_raise-step (some a) f k = k a refl

  pub or_panic-Adds : {A : Type 0} (o : Option A) (w : World vm) → Keeps w (or_panic o w)
  unfolding or_panic
  or_panic-Adds none w = record { ends = panics }
  or_panic-Adds (some a) w = kept a (Kept-refl w) tt

  module _ (laws : Laws vm) where
    pub define_module-Adds :
        (p : vm.Object) (n : String) (w : World vm)
        → Adds (λ m. constant p n m ∷ a_module m ∷ []) w (define_module p n w)
    unfolding define_module
    define_module-Adds p n w = elim (Option-cases (vm.define_module p n (w.ruby))) [
      | inl e ↦ rw e raised-Adds
      | inr ((m, s), e) ↦
          let l = laws.define_module_lem p n (w.ruby) m s e in
          rw e (kept _ (extended (l.2)) (l.0, (l.1, tt)))
    ]

    pub define_class-Adds :
        (p : vm.Object) (n : String) (d : vm.Object) (w : World vm)
        → Adds (λ c. constant p n c ∷ parent c d ∷ []) w (define_class p n d w)
    unfolding define_class
    define_class-Adds p n d w = elim (Option-cases (vm.define_class p n d (w.ruby))) [
      | inl e ↦ rw e raised-Adds
      | inr ((c, s), e) ↦
          let l = laws.define_class_lem p n d (w.ruby) c s e in
          rw e (kept _ (extended (l.2)) (l.0, (l.1, tt)))
    ]

    pub define_method-Adds :
        (c : vm.Object) (n : String) (a : ℤ) (w : World vm)
        → Adds (λ _. []) w (define_method c n a w)
    unfolding define_method
    define_method-Adds c n a w = elim (Option-cases (vm.define_method c n a (w.ruby))) [
      | inl e ↦ rw e raised-Adds
      | inr (s, e) ↦ rw e (kept tt (extended (laws.define_method_lem c n a (w.ruby) s e)) tt)
    ]

    pub define_module_function-Adds :
        (c : vm.Object) (n : String) (a : ℤ) (w : World vm)
        → Adds (λ _. []) w (define_module_function c n a w)
    unfolding define_module_function
    define_module_function-Adds c n a w =
        elim (Option-cases (vm.define_module_function c n a (w.ruby))) [
          | inl e ↦ rw e raised-Adds
          | inr (s, e) ↦
              rw e (kept tt (extended (laws.define_module_function_lem c n a (w.ruby) s e)) tt)
        ]

    pub define_alloc_func-Adds :
        (c : vm.Object) (w : World vm) → Adds (λ _. []) w (define_alloc_func c w)
    unfolding define_alloc_func
    define_alloc_func-Adds c w = kept tt (extended (laws.define_alloc_func_lem c (w.ruby))) tt
