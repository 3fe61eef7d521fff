-- ===== src/Extension/Registered.antt =====
-- What the init of ext/aws_crt/src/lib.rs leaves for the code that raises errors: its lookups of
-- exception classes succeed, and find the classes of the documented hierarchy.
use aws_crt.Prelude.{◌≡◌, refl, some, String, List, ℕ}
use aws_crt.Error.{classify_error}
use aws_crt.Cbor.Result
use aws_crt.Extension.Vm.{Vm, Laws}
use aws_crt.Extension.World.{World, returned, or_panic}
use aws_crt.Extension.Classes.{
  class_name, exception_from, get_module-eq, get_exception-eq, get_cbor_module, cbor_error_class,
  exception_class, crt_error_class, define_checksums, define_s3_client, define_s3, init,
}
use aws_crt.Extension.Facts.{
  Kept, Kept-trans, Post, Post-bind, Post-map, Post-returned, Keeps, Keeps-bind,
}
use aws_crt.Extension.Facts.Calls.{
  define_module-Adds, define_class-Adds, define_method-Adds, define_module_function-Adds,
  define_alloc_func-Adds,
}
use aws_crt.Extension.Inherits.{Descends, Descends-exception}
use aws_crt.Extension.CborClasses.{CborReady, CborReady-Extends, cbor_init-CborReady}
use aws_crt.Extension.HttpClasses.{
  http_name, HttpReady, HttpReady-Kept, BaseError, BaseError-Extends, define_http-HttpReady,
}

module _ {vm : Vm} where
  pub record Ready (m base : vm.Object) (w : World vm) : Type 0 where
    pub error : BaseError m base w
    pub cbor : CborReady m w
    pub http : HttpReady m base w

  Ready-Kept : {m base : vm.Object} {w w' : World vm} → Kept w w' → Ready m base w → Ready m base w'
  Ready-Kept k r = record {
    error = BaseError-Extends (k.ruby) (r.error);
    cbor = CborReady-Extends (k.ruby) (r.cbor);
    http = HttpReady-Kept k (r.http);
  }

module _ {vm : Vm} (laws : Laws vm) where
  define_checksums-Keeps : (m : vm.Object) (w : World vm) → Keeps w (define_checksums vm m w)
  unfolding define_checksums
  define_checksums-Keeps m w = Keeps-bind (define_module-Adds laws _ _ w) (λ c w₁.
      Keeps-bind (define_module_function-Adds laws c _ _ w₁) (λ _ w₂.
        Keeps-bind (define_module_function-Adds laws c _ _ w₂)
          (λ _ w₃. define_module_function-Adds laws c _ _ w₃)))

  define_s3-Keeps : (m : vm.Object) (w : World vm) → Keeps w (define_s3 vm m w)
  unfolding define_s3 define_s3_client
  define_s3-Keeps m w = Keeps-bind (define_module-Adds laws _ _ w) (λ s3 w₁.
      Keeps-bind (define_class-Adds laws _ _ _ w₁) (λ c w₂.
        Keeps-bind (define_alloc_func-Adds laws c w₂) (λ _ w₃.
          Keeps-bind (define_method-Adds laws c _ _ w₃) (λ _ w₄.
            Keeps-bind (define_method-Adds laws c _ _ w₄)
              (λ _ w₅. define_method-Adds laws c _ _ w₅)))))

  init-Ready :
      (m base : vm.Object) (w : World vm)
      → BaseError m base w
      → Post (λ _ w'. Ready m base w') (init vm w)
  unfolding init
  init-Ready m base w b =
      Post-bind ((define_module-Adds laws (vm.class_object) "AwsCrt" w).ends)
        (λ m' w₁ (k₁, (named, _)).
          let same : m' ≡ m = cc (named, k₁.ruby.constants _ _ _ (b.aws_crt)) in
          rw same (
            Post-bind ((define_checksums-Keeps m w₁).ends) (λ _ w₂ (k₂, _).
              Post-bind (cbor_init-CborReady laws m w₂) (λ _ w₃ (cbor, k₃).
                let b₃ =
                  BaseError-Extends {w = w} {w' = w₃} ((Kept-trans k₁ (Kept-trans k₂ k₃)).ruby) b in
                Post-bind (define_http-HttpReady laws m base w₃ b₃) (λ _ w₄ (http, x₄).
                  Post-map ((define_s3-Keeps m w₄).ends) (λ _ w' (k, _). Ready-Kept k (record {
                    error = BaseError-Extends x₄ b₃;
                    cbor = CborReady-Extends x₄ cbor;
                    http = http;
                  })))))))

  -- Where AwsCrt::Error is an exception class when the extension is loaded: once init has returned,
  -- each error of cbor.rs that has a class of its own finds it, a class below StandardError, without a
  -- panic.
  pub init-cbor_error_class :
      (m base : vm.Object) {w w' w'' : World vm} (e : Result.Error) (n : String)
      → BaseError m base w
      → init vm w ≡ returned tt w'
      → Kept w' w''
      → class_name e ≡ some n
      → (c : vm.Object) × (cbor_error_class vm n w'' ≡ returned c w'')
        × Descends w'' (vm.standard_error) c
  unfolding cbor_error_class get_cbor_module or_panic
  init-cbor_error_class m base {w} {w''} e n b done k named =
      let r = Ready-Kept k (Post-returned (init-Ready m base w b) done) in
      let c = rw named at (r.cbor.errors e) in
      (
        c.found,
        rw (get_module-eq vm (r.error.aws_crt) (r.error.aws_crt_module)) (
            rw (get_module-eq vm (r.cbor.named) (r.cbor.cbor_module)) (
              rw
                (get_exception-eq vm (c.named)
                  (Descends-exception laws (c.descends) (laws.standard_error_IsException _)))
                refl)),
        c.descends,
      )

  -- Where AwsCrt::Error is an exception class when the extension is loaded: once init has returned,
  -- an error of the CRT with whatever name finds the class that classify_error picks in the statics
  -- without a panic; it is what AwsCrt::Http has under that name, and inherits from AwsCrt::Error.
  pub init-crt_error_class :
      (m base : vm.Object) {w w' w'' : World vm} (name : List ℕ)
      → BaseError m base w
      → init vm w ≡ returned tt w'
      → Kept w' w''
      → (c : vm.Object) × (http : vm.Object) × (crt_error_class vm name w'' ≡ returned c w'')
        × (vm.const_get m "Http" (w''.ruby) ≡ some http)
        × (vm.const_get http (http_name (classify_error name)) (w''.ruby) ≡ some c)
        × Descends w'' base c
  unfolding crt_error_class exception_class or_panic exception_from
  init-crt_error_class m base {w} {w''} name b done k =
      let r = Ready-Kept k (Post-returned (init-Ready m base w b) done) in
      let c = r.http.classes (classify_error name) in
      (
        c.class,
        r.http.http,
        rw (c.in_static) (rw (Descends-exception laws (c.descends) (r.error.base_exception)) refl),
        r.http.named,
        c.named,
        c.descends,
      )
