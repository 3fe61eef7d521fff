-- ===== src/Extension/HttpClasses.antt =====
-- What define_http_errors of ext/aws_crt/src/error.rs leaves: the statics hold the exception classes
-- of AwsCrt::Http, all below its Error, which is below AwsCrt::Error.
use aws_crt.Prelude.{true, ◌≡◌, refl, some, String, [], ◌∷◌}
use aws_crt.Error.{ExceptionClass, error, connection_error, timeout_error, tls_error, proxy_error}
use aws_crt.Extension.Vm.{Vm, Extends, Laws}
use aws_crt.Extension.World.{World, or_raise, set_http}
use aws_crt.Extension.Classes.{
  cached, get_module-eq, get_exception-eq, define_http_errors, define_connection_pool, define_http,
}
use aws_crt.Extension.Facts.{
  constant, parent, Kept, Extends-trans, Holds, Knows-start, Post, returns, Post-bind, Post-map,
  Post-step, Keeps, Keeps-bind,
}
use aws_crt.Extension.Facts.Calls.{
  define_module-Adds, define_class-Adds, define_method-Adds, define_alloc_func-Adds,
}
use aws_crt.Extension.Inherits.{Descends, itself, below, Descends-Extends}

-- The constant of AwsCrt::Http with the class.
abbrev pub http_name : ExceptionClass → String
http_name error = "Error"
http_name connection_error = "ConnectionError"
http_name timeout_error = "TimeoutError"
http_name tls_error = "TlsError"
http_name proxy_error = "ProxyError"

module _ {vm : Vm} where
  -- The static for a class holds the class of that name, which inherits from the given one.
  pub record Cached (w : World vm) (http base : vm.Object) (k : ExceptionClass) : Type 0 where
    pub class : vm.Object
    pub in_static : cached vm k (w.statics.http) ≡ some class
    pub named : vm.const_get http (http_name k) (w.ruby) ≡ some class
    pub descends : Descends w base class

  pub Cached-Kept :
      {w w' : World vm} {http base : vm.Object} (k : ExceptionClass)
      → Kept w w'
      → Cached w http base k
      → Cached w' http base k
  Cached-Kept {http} k h c = record {
    class = c.class;
    in_static = rw (h.caches k) (c.in_static);
    named = h.ruby.constants http (http_name k) (c.class) (c.named);
    descends = Descends-Extends (h.ruby) (c.descends);
  }

  abbrev pub AllCached : World vm → vm.Object → vm.Object → Type 0
  AllCached w http base = (k : ExceptionClass) → Cached w http base k

  pub record HttpReady (m base : vm.Object) (w : World vm) : Type 0 where
    pub http : vm.Object
    pub named : vm.const_get m "Http" (w.ruby) ≡ some http
    pub classes : AllCached w http base

  pub HttpReady-Kept :
      {m base : vm.Object} {w w' : World vm} → Kept w w' → HttpReady m base w → HttpReady m base w'
  HttpReady-Kept {m} k r = record {
    http = r.http;
    named = k.ruby.constants m "Http" (r.http) (r.named);
    classes = λ x. Cached-Kept x k (r.classes x);
  }

  -- AwsCrt::Error, as lib/aws_crt.rb makes it before it loads the extension.
  pub record BaseError (m base : vm.Object) (w : World vm) : Type 0 where
    pub aws_crt : vm.const_get (vm.class_object) "AwsCrt" (w.ruby) ≡ some m
    pub aws_crt_module : vm.is_module m (w.ruby) ≡ true
    pub named : vm.const_get m "Error" (w.ruby) ≡ some base
    pub base_exception : vm.is_exception base (w.ruby) ≡ true

  pub BaseError-Extends :
      {m base : vm.Object} {w w' : World vm}
      → Extends vm (w.ruby) (w'.ruby)
      → BaseError m base w
      → BaseError m base w'
  BaseError-Extends {m} {base} k b = record {
    aws_crt = k.constants (vm.class_object) "AwsCrt" m (b.aws_crt);
    aws_crt_module = k.modules m (b.aws_crt_module);
    named = k.constants m "Error" base (b.named);
    base_exception = k.exceptions base (b.base_exception);
  }

  -- The classes as define_http_errors stores them.
  module _ (w : World vm) (c₁ c₂ c₃ c₄ e : vm.Object) where
    abbrev stored : World vm
    stored = record w {
      statics = record (w.statics) {
        http = record {
          http_error = some e;
          http_connection_error = some c₁;
          http_timeout_error = some c₂;
          http_tls_error = some c₃;
          http_proxy_error = some c₄;
        };
      };
    }

    stored-AllCached :
        (http base : vm.Object)
        → Holds
            (constant http "ProxyError" c₄
              ∷ parent c₄ e
              ∷ constant http "TlsError" c₃
              ∷ parent c₃ e
              ∷ constant http "TimeoutError" c₂
              ∷ parent c₂ e
              ∷ constant http "ConnectionError" c₁
              ∷ parent c₁ e
              ∷ constant http "Error" e
              ∷ parent e base
              ∷ [])
            w
        → AllCached stored http base
    unfolding cached
    stored-AllCached http base (b₄, (p₄, (b₃, (p₃, (b₂, (p₂, (b₁, (p₁, (b, (p, _)))))))))) k =
        of_kind k
      where
        of_kind : (k : ExceptionClass) → Cached stored http base k
        of_kind error = record { class = e; in_static = refl; named = b; descends = below p itself }
        of_kind connection_error = record {
          class = c₁;
          in_static = refl;
          named = b₁;
          descends = below p₁ (below p itself);
        }
        of_kind timeout_error = record {
          class = c₂;
          in_static = refl;
          named = b₂;
          descends = below p₂ (below p itself);
        }
        of_kind tls_error = record {
          class = c₃;
          in_static = refl;
          named = b₃;
          descends = below p₃ (below p itself);
        }
        of_kind proxy_error = record {
          class = c₄;
          in_static = refl;
          named = b₄;
          descends = below p₄ (below p itself);
        }

module _ {vm : Vm} (laws : Laws vm) where
  -- Where AwsCrt::Error is an exception class.
  define_http_errors-AllCached :
      (m base http : vm.Object) (w : World vm)
      → BaseError m base w
      → Post
          (λ _ w'. AllCached w' http base × Extends vm (w.ruby) (w'.ruby))
          (define_http_errors vm http w)
  unfolding define_http_errors or_raise set_http
  define_http_errors-AllCached m base http w b =
      rw (get_module-eq vm (b.aws_crt) (b.aws_crt_module)) (
        rw (get_exception-eq vm (b.named) (b.base_exception)) (
          Post-step (Knows-start w) (define_class-Adds laws _ _ _ w) (λ e w₁ h₁.
            Post-step h₁ (define_class-Adds laws _ _ _ w₁) (λ c₁ w₂ h₂.
              Post-step h₂ (define_class-Adds laws _ _ _ w₂) (λ c₂ w₃ h₃.
                Post-step h₃ (define_class-Adds laws _ _ _ w₃) (λ c₃ w₄ h₄.
                  Post-step h₄ (define_class-Adds laws _ _ _ w₄) (λ c₄ w₅ h₅.
                    returns
                      (stored-AllCached w₅ c₁ c₂ c₃ c₄ e http base (h₅.all), h₅.since.ruby))))))))

  define_connection_pool-Keeps :
      (http : vm.Object) (w : World vm) → Keeps w (define_connection_pool vm http w)
  unfolding define_connection_pool
  define_connection_pool-Keeps http w = Keeps-bind (define_class-Adds laws _ _ _ w) (λ c w₁.
      Keeps-bind (define_alloc_func-Adds laws c w₁) (λ _ w₂.
        Keeps-bind (define_method-Adds laws c _ _ w₂) (λ _ w₃. define_method-Adds laws c _ _ w₃)))

  pub define_http-HttpReady :
      (m base : vm.Object) (w : World vm)
      → BaseError m base w
      → Post (λ _ w'. HttpReady m base w' × Extends vm (w.ruby) (w'.ruby)) (define_http vm m w)
  unfolding define_http
  define_http-HttpReady m base w b =
      Post-bind ((define_module-Adds laws m "Http" w).ends) (λ http w₁ (k₁, (named, _)).
        Post-bind (define_http_errors-AllCached m base http w₁ (BaseError-Extends (k₁.ruby) b))
          (λ _ w₂ (all, x₂). Post-map ((define_connection_pool-Keeps http w₂).ends) (λ _ w' (k, _).
            (
              HttpReady-Kept k
                  (record { http = http; named = x₂.constants m "Http" http named; classes = all }),
              Extends-trans (k₁.ruby) (Extends-trans x₂ (k.ruby)),
            ))))
