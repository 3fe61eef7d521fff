-- ===== src/Extension/Tests/Small.antt =====
-- A small Ruby that satisfies the laws: modules and classes are known by their places, and a constant
-- that is there already is given back as a module, or refused as a class.
use aws_crt.Prelude.{
  Bool, Bool-cases, List, Option, Option-cases, String, [], false, if◌then◌else◌, inl, inr, none,
  refl, some, true, ◌&&◌, ◌++◌, ◌∷◌, ◌≡◌,
}
use aws_crt.Extension.Vm.{Extends, Laws, Vm}
use text.Mathlib.Text.{◌==◌}
use text.Mathlib.TextEquality.{eq_iff}

pub data Thing : Type 0 where
  class_object standard_error time : Thing
  module_at : Thing → String → Thing
  class_at : Thing → String → Thing → Thing

unfoldable pub same : Thing → Thing → Bool
same class_object class_object = true
same standard_error standard_error = true
same time time = true
same (module_at p n) (module_at q k) = same p q && n == k
same (class_at p n d) (class_at q k e) = same p q && (n == k && same d e)
same _ _ = false

and-both : {a b : Bool} → a ≡ true → b ≡ true → a && b ≡ true
and-both h k = rw h k

same_refl : (t : Thing) → same t t ≡ true
unfolding same
same_refl class_object = refl
same_refl standard_error = refl
same_refl time = refl
same_refl (module_at p n) = and-both (same_refl p) ((eq_iff n n).1 refl)
same_refl (class_at p n d) = and-both (same_refl p) (and-both ((eq_iff n n).1 refl) (same_refl d))

-- Whether a thing is what a module has under a name.
unfoldable pub is_at : Thing → String → Thing → Bool
is_at p n (module_at q k) = same p q && n == k
is_at p n (class_at q k d) = same p q && n == k
is_at p n _ = false

unfoldable pub find : Thing → String → List Thing → Option Thing
find p n [] = none
find p n (t ∷ ts) = if is_at p n t then some t else find p n ts

find-append :
    (p : Thing) (n : String) (ts us : List Thing) {t : Thing}
    → find p n ts ≡ some t
    → find p n (ts ++ us) ≡ some t
unfolding find
find-append p n [] us h = cc
find-append p n (u ∷ ts) us h = elim (Bool-cases (is_at p n u)) [
  | inl e ↦ rw e (rw e at h)
  | inr e ↦ rw e (find-append p n ts us (rw e at h))
]

find-new :
    (p : Thing) (n : String) (ts : List Thing) (t : Thing)
    → is_at p n t ≡ true
    → find p n ts ≡ none
    → find p n (ts ++ t ∷ []) ≡ some t
unfolding find
find-new p n [] t at_p h = rw at_p refl
find-new p n (u ∷ ts) t at_p h = elim (Bool-cases (is_at p n u)) [
  | inl e ↦ absurd (cc (rw e at h))
  | inr e ↦ rw e (find-new p n ts t at_p (rw e at h))
]

unfoldable pub is_module_thing : Thing → Bool
is_module_thing (module_at p n) = true
is_module_thing _ = false

unfoldable pub is_exception_thing : Thing → Bool
is_exception_thing standard_error = true
is_exception_thing (class_at p n d) = is_exception_thing d
is_exception_thing _ = false

unfoldable pub super : Thing → Option Thing
super (class_at p n d) = some d
super _ = none

unfoldable pub evaluated : String → Option (Option Thing)
evaluated e =
    if e == "StandardError"
    then some (some standard_error)
    else if e == "Time"
    then some (some time)
    else some none

unfoldable pub given : Thing → List Thing → Option (Thing × List Thing)
given t ts = if is_module_thing t then some (t, ts) else none

unfoldable pub add_module : Thing → String → List Thing → Option (Thing × List Thing)
unfolding given
add_module p n ts = elim (find p n ts) [
  | none ↦ some (module_at p n, ts ++ module_at p n ∷ [])
  | some t ↦ given t ts
]

unfoldable pub add_class : Thing → String → Thing → List Thing → Option (Thing × List Thing)
add_class p n d ts = elim (find p n ts) [
  | none ↦ some (class_at p n d, ts ++ class_at p n d ∷ [])
  | some t ↦ none
]

abbrev pub small : Vm
small = record {
  State = List Thing;
  Object = Thing;
  class_object = class_object;
  eval = λ e ts. evaluated e;
  const_get = find;
  is_module = λ t ts. is_module_thing t;
  is_exception = λ t ts. is_exception_thing t;
  superclass = λ t ts. super t;
  define_module = add_module;
  define_class = add_class;
  define_method = λ c n a ts. some ts;
  define_module_function = λ c n a ts. some ts;
  define_alloc_func = λ c ts. ts;
  standard_error = standard_error;
  utf8_encindex = 1;
  ascii8bit_encindex = 0;
}

added-Extends : (ts us : List Thing) → Extends small ts (ts ++ us)
added-Extends ts us = record {
  constants = λ p n x h. find-append p n ts us h;
  parents = λ c d h. h;
  modules = λ m h. h;
  exceptions = λ c h. h;
}

same-Extends : (ts : List Thing) → Extends small ts ts
same-Extends ts = record {
  constants = λ p n x h. h;
  parents = λ c d h. h;
  modules = λ m h. h;
  exceptions = λ c h. h;
}

abbrev Grown : Thing → String → List Thing → Thing → List Thing → Type 0
Grown p n ts m us = (find p n us ≡ some m) × Extends small ts us

append-Grown :
    (p : Thing) (n : String) (ts : List Thing) (t : Thing)
    → is_at p n t ≡ true
    → find p n ts ≡ none
    → Grown p n ts t (ts ++ t ∷ [])
append-Grown p n ts t h e = (find-new p n ts t h e, added-Extends ts (t ∷ []))

place : (p : Thing) (n : String) → same p p && n == n ≡ true
place p n = and-both (same_refl p) ((eq_iff n n).1 refl)

some_pair :
    {t m : Thing} {ts us : List Thing}
    → ◌≡◌ {A = Option (Thing × List Thing)} (some (t, ts)) (some (m, us))
    → (t ≡ m) × (ts ≡ us)
some_pair h = (cc, cc)

module_given :
    (p : Thing) (n : String) (ts : List Thing) (t m : Thing) (us : List Thing)
    → find p n ts ≡ some t
    → given t ts ≡ some (m, us)
    → (find p n us ≡ some m) × (is_module_thing m ≡ true) × Extends small ts us
unfolding given
module_given p n ts t m us e h = elim (Bool-cases (is_module_thing t)) [
  | inl is ↦
      let (first, second) = some_pair (rw is at h) in
      rw (← first, ← second) (e, is, same-Extends ts)
  | inr is ↦ absurd (cc (rw is at h))
]

add_module_lem :
    (p : Thing) (n : String) (ts : List Thing) (m : Thing) (us : List Thing)
    → add_module p n ts ≡ some (m, us)
    → (find p n us ≡ some m) × (is_module_thing m ≡ true) × Extends small ts us
unfolding add_module is_at is_module_thing
add_module_lem p n ts m us h = elim (Option-cases (find p n ts)) [
  | inl e ↦
      let (first, second) = some_pair (rw (e, add_module) at h) in
      let a = append-Grown p n ts (module_at p n) (place p n) e in
      rw (← first, ← second) (a.0, refl, a.1)
  | inr (t, e) ↦ module_given p n ts t m us e (rw (e, add_module) at h)
]

add_class_lem :
    (p : Thing) (n : String) (d : Thing) (ts : List Thing) (c : Thing) (us : List Thing)
    → add_class p n d ts ≡ some (c, us)
    → (find p n us ≡ some c) × (super c ≡ some d) × Extends small ts us
unfolding add_class is_at super
add_class_lem p n d ts c us h = elim (Option-cases (find p n ts)) [
  | inl e ↦
      let (first, second) = some_pair (rw (e, add_class) at h) in
      let a = append-Grown p n ts (class_at p n d) (place p n) e in
      rw (← first, ← second) (a.0, refl, a.1)
  | inr (t, e) ↦ absurd (cc (rw (e, add_class) at h))
]

exception_below :
    (c d : Thing) → super c ≡ some d → is_exception_thing d ≡ true → is_exception_thing c ≡ true
unfolding super is_exception_thing
exception_below class_object d h k = cc
exception_below standard_error d h k = cc
exception_below time d h k = cc
exception_below (module_at p n) d h k = cc
exception_below (class_at p n e) d h k = let same : e ≡ d = cc in rw same k

pub small_laws : Laws small
unfolding evaluated is_exception_thing
small_laws = record {
  define_module_lem = add_module_lem;
  define_class_lem = add_class_lem;
  define_method_lem = λ c n a s s' h. let same : s ≡ s' = cc in rw (← same) (same-Extends s);
  define_module_function_lem =
      λ c n a s s' h. let same : s ≡ s' = cc in rw (← same) (same-Extends s);
  define_alloc_func_lem = λ c s. same-Extends s;
  exception_inherited = λ c d s h k. exception_below c d h k;
  eval_standard_error = λ s. refl;
  standard_error_IsException = λ s. refl;
}
