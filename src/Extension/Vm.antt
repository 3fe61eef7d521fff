-- ===== src/Extension/Vm.antt =====
-- The calls of Ruby that the registration of ext/aws_crt/src makes, as magnus offers them. Ruby is
-- not part of the tree: its state, its objects and its calls are parameters, and what Ruby's
-- documentation says of the calls are laws. A call that raises gives `none`.
use aws_crt.Prelude.{ℕ, Bool, true, ◌≡◌, Option, some, String}
use aws_crt.Prelude.Int.{ℤ}

pub record Vm : Type 1 where
  pub State : Type 0
  pub Object : Type 0
  -- ruby.class_object(), whose constants are the top-level ones.
  pub class_object : Object
  -- ruby.eval of an expression, where nil gives `some none`.
  pub eval : String → State → Option (Option Object)
  pub const_get : Object → String → State → Option Object
  -- RModule::from_value and ExceptionClass::from_value: whether the object is one.
  pub is_module : Object → State → Bool
  pub is_exception : Object → State → Bool
  pub superclass : Object → State → Option Object
  pub define_module : Object → String → State → Option (Object × State)
  pub define_class : Object → String → Object → State → Option (Object × State)
  -- With the number of arguments, -1 for any.
  pub define_method : Object → String → ℤ → State → Option State
  pub define_module_function : Object → String → ℤ → State → Option State
  pub define_alloc_func : Object → State → State
  -- What the constant StandardError holds.
  pub standard_error : Object
  pub utf8_encindex : ℕ
  pub ascii8bit_encindex : ℕ

-- What is so in one state is so in a later one: no constant is redefined, and no class changes what
-- it inherits from.
pub record Extends (vm : Vm) (s s' : vm.State) : Type 0 where
  pub constants :
      (p : vm.Object) (n : String) (x : vm.Object)
      → vm.const_get p n s ≡ some x
      → vm.const_get p n s' ≡ some x
  pub parents : (c d : vm.Object) → vm.superclass c s ≡ some d → vm.superclass c s' ≡ some d
  pub modules : (m : vm.Object) → vm.is_module m s ≡ true → vm.is_module m s' ≡ true
  pub exceptions : (c : vm.Object) → vm.is_exception c s ≡ true → vm.is_exception c s' ≡ true

-- rb_define_module_under and rb_define_class_under give what the constant holds, or set it; they
-- raise where it holds something else, such as a class with another superclass.
pub record Laws (vm : Vm) : Type 0 where
  pub define_module_lem :
      (p : vm.Object) (n : String) (s : vm.State) (m : vm.Object) (s' : vm.State)
      → vm.define_module p n s ≡ some (m, s')
      → (vm.const_get p n s' ≡ some m) × (vm.is_module m s' ≡ true) × Extends vm s s'
  pub define_class_lem :
      (p : vm.Object) (n : String) (d : vm.Object) (s : vm.State) (c : vm.Object) (s' : vm.State)
      → vm.define_class p n d s ≡ some (c, s')
      → (vm.const_get p n s' ≡ some c) × (vm.superclass c s' ≡ some d) × Extends vm s s'
  pub define_method_lem :
      (c : vm.Object) (n : String) (a : ℤ) (s s' : vm.State)
      → vm.define_method c n a s ≡ some s'
      → Extends vm s s'
  pub define_module_function_lem :
      (c : vm.Object) (n : String) (a : ℤ) (s s' : vm.State)
      → vm.define_module_function c n a s ≡ some s'
      → Extends vm s s'
  pub define_alloc_func_lem :
      (c : vm.Object) (s : vm.State) → Extends vm s (vm.define_alloc_func c s)
  -- A class below an exception class is one.
  pub exception_inherited :
      (c d : vm.Object) (s : vm.State)
      → vm.superclass c s ≡ some d
      → vm.is_exception d s ≡ true
      → vm.is_exception c s ≡ true
  pub eval_standard_error :
      (s : vm.State) → vm.eval "StandardError" s ≡ some (some vm.standard_error)
  pub standard_error_IsException : (s : vm.State) → vm.is_exception vm.standard_error s ≡ true
