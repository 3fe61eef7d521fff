-- ===== src/Extension/World.antt =====
-- Ruby's state together with the statics of ext/aws_crt/src, and functions that change them, raise a
-- Ruby error or panic.
use aws_crt.Prelude.{ℕ, Bool, Option, none, some, String, false}
use aws_crt.Prelude.Int.{ℤ}
use aws_crt.Extension.Vm.{Vm}

-- The statics of cbor.rs; the VALUE 0 is `none`.
pub record CborStatics (Object : Type 0) : Type 0 where
  pub tagged_class : Option Object
  pub time_class : Option Object
  pub bigdecimal_class : Option Object
  pub bigdecimal_loaded : Bool
  pub utf8_encindex : ℕ
  pub binary_encindex : ℕ

-- The statics of error.rs.
pub record HttpStatics (Object : Type 0) : Type 0 where
  pub http_error : Option Object
  pub http_connection_error : Option Object
  pub http_timeout_error : Option Object
  pub http_tls_error : Option Object
  pub http_proxy_error : Option Object

pub record Statics (Object : Type 0) : Type 0 where
  pub cbor : CborStatics Object
  pub http : HttpStatics Object

abbrev pub initial_statics : {Object : Type 0} → Statics Object
initial_statics = record {
  cbor = record {
    tagged_class = none;
    time_class = none;
    bigdecimal_class = none;
    bigdecimal_loaded = false;
    utf8_encindex = 0;
    binary_encindex = 0;
  };
  http = record {
    http_error = none;
    http_connection_error = none;
    http_timeout_error = none;
    http_tls_error = none;
    http_proxy_error = none;
  };
}

pub record World (vm : Vm) : Type 0 where
  pub ruby : vm.State
  pub statics : Statics (vm.Object)

-- How a function ends, and the world it leaves.
pub data Ended (vm : Vm) (A : Type 0) : Type 0 where
  returned : A → World vm → Ended vm A
  raised : World vm → Ended vm A
  panicked : World vm → Ended vm A

abbrev pub M : Vm → Type 0 → Type 0
M vm A = World vm → Ended vm A

module _ {vm : Vm} where
  abbrev pub continue : {A B : Type 0} → Ended vm A → (A → M vm B) → Ended vm B
  continue (returned a w) f = f a w
  continue (raised w) f = raised w
  continue (panicked w) f = panicked w

  infixl 5 ◌>>=◌ ◌>>◌
  abbrev pub ◌>>=◌ : {A B : Type 0} → M vm A → (A → M vm B) → M vm B
  (m >>= f) w = continue (m w) f

  abbrev pub ◌>>◌ : {B : Type 0} → M vm (Unit {0}) → M vm B → M vm B
  m >> k = m >>= λ _. k

  -- The `?` of a result.
  unfoldable pub or_raise : {A : Type 0} → Option A → M vm A
  or_raise none w = raised w
  or_raise (some a) w = returned a w

  -- `unwrap` and `expect`.
  unfoldable pub or_panic : {A : Type 0} → Option A → M vm A
  or_panic none w = panicked w
  or_panic (some a) w = returned a w

  abbrev put_ruby : {A : Type 0} → Option (A × vm.State) → World vm → Ended vm A
  put_ruby none w = raised w
  put_ruby (some (a, s)) w = returned a (record w { ruby = s })

  abbrev put_state : Option (vm.State) → World vm → Ended vm (Unit {0})
  put_state none w = raised w
  put_state (some s) w = returned tt (record w { ruby = s })

  unfoldable pub define_module : vm.Object → String → M vm (vm.Object)
  define_module p n w = put_ruby (vm.define_module p n (w.ruby)) w

  unfoldable pub define_class : vm.Object → String → vm.Object → M vm (vm.Object)
  define_class p n d w = put_ruby (vm.define_class p n d (w.ruby)) w

  unfoldable pub define_method : vm.Object → String → ℤ → M vm (Unit {0})
  define_method c n a w = put_state (vm.define_method c n a (w.ruby)) w

  unfoldable pub define_module_function : vm.Object → String → ℤ → M vm (Unit {0})
  define_module_function c n a w = put_state (vm.define_module_function c n a (w.ruby)) w

  unfoldable pub define_alloc_func : vm.Object → M vm (Unit {0})
  define_alloc_func c w = returned tt (record w { ruby = vm.define_alloc_func c (w.ruby) })

  abbrev pub read : {A : Type 0} → (vm.State → A) → M vm A
  read f w = returned (f (w.ruby)) w

  unfoldable pub change_cbor : (CborStatics (vm.Object) → CborStatics (vm.Object)) → M vm (Unit {0})
  change_cbor f w =
      returned tt (record w { statics = record (w.statics) { cbor = f (w.statics.cbor) } })

  unfoldable pub set_http : HttpStatics (vm.Object) → M vm (Unit {0})
  set_http h w = returned tt (record w { statics = record (w.statics) { http = h } })
