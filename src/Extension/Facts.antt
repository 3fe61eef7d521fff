-- ===== src/Extension/Facts.antt =====
-- What is known of Ruby and of the statics while ext/aws_crt/src registers its classes: facts that
-- stay true, and what a function adds to them.
pub mod Calls
use aws_crt.Prelude.{
  true, ◌≡◌, refl, subst, ◌∙◌, Option, String, List, [], ◌∷◌, ◌++◌, none, some, inl, inr,
  Option-cases,
}
use aws_crt.Prelude.Int.{ℤ}
use aws_crt.Extension.Vm.{Vm, Extends, Laws}
use aws_crt.Extension.World.{
  World, CborStatics, Ended, returned, raised, panicked, M, continue, or_raise, or_panic,
  change_cbor, define_module, define_class, define_method, define_module_function,
  define_alloc_func,
}
use aws_crt.Extension.Classes.{cached}
use aws_crt.Error.{ExceptionClass}

pub data Fact (vm : Vm) : Type 0 where
  constant : vm.Object → String → vm.Object → Fact vm
  parent : vm.Object → vm.Object → Fact vm
  a_module : vm.Object → Fact vm
  exception : vm.Object → Fact vm
  in_cache : ExceptionClass → vm.Object → Fact vm

-- Constants, superclasses and the cached classes stay what they are.
pub record Kept {vm : Vm} (w w' : World vm) : Type 0 where
  pub ruby : Extends vm (w.ruby) (w'.ruby)
  pub caches : (k : ExceptionClass) → cached vm k (w'.statics.http) ≡ cached vm k (w.statics.http)

module _ {vm : Vm} where
  abbrev pub True : Fact vm → World vm → Type 0
  True (constant p n x) w = vm.const_get p n (w.ruby) ≡ some x
  True (parent c d) w = vm.superclass c (w.ruby) ≡ some d
  True (a_module m) w = vm.is_module m (w.ruby) ≡ true
  True (exception c) w = vm.is_exception c (w.ruby) ≡ true
  True (in_cache k c) w = cached vm k (w.statics.http) ≡ some c

  abbrev pub Holds : List (Fact vm) → World vm → Type 0
  Holds [] w = Unit {0}
  Holds (f ∷ fs) w = True f w × Holds fs w

  pub Kept-refl : (w : World vm) → Kept w w
  Kept-refl w = record {
    ruby = record {
      constants = λ p n x h. h;
      parents = λ c d h. h;
      modules = λ m h. h;
      exceptions = λ c h. h;
    };
    caches = λ k. refl;
  }

  pub Extends-trans : {s s' s'' : vm.State} → Extends vm s s' → Extends vm s' s'' → Extends vm s s''
  Extends-trans h k = record {
    constants = λ p n x e. k.constants p n x (h.constants p n x e);
    parents = λ c d e. k.parents c d (h.parents c d e);
    modules = λ m e. k.modules m (h.modules m e);
    exceptions = λ c e. k.exceptions c (h.exceptions c e);
  }

  pub Kept-trans : {w w' w'' : World vm} → Kept w w' → Kept w' w'' → Kept w w''
  Kept-trans h k = record {
    ruby = Extends-trans (h.ruby) (k.ruby);
    caches = λ x. k.caches x ∙ h.caches x;
  }

  pub True-Kept : {w w' : World vm} (f : Fact vm) → Kept w w' → True f w → True f w'
  True-Kept (constant p n x) k h = k.ruby.constants p n x h
  True-Kept (parent c d) k h = k.ruby.parents c d h
  True-Kept (a_module m) k h = k.ruby.modules m h
  True-Kept (exception c) k h = k.ruby.exceptions c h
  True-Kept (in_cache e c) k h = k.caches e ∙ h

  pub Holds-Kept : {w w' : World vm} (fs : List (Fact vm)) → Kept w w' → Holds fs w → Holds fs w'
  Holds-Kept [] k h = tt
  Holds-Kept (f ∷ fs) k h = (True-Kept f k (h.0), Holds-Kept fs k (h.1))

  -- A property of what a function returns and of the world it leaves then.
  pub data Post {A : Type 0} (P : A → World vm → Type 0) : Ended vm A → Type 0 where
    returns : {a : A} {w : World vm} → P a w → Post P (returned a w)
    raises : {w : World vm} → Post P (raised w)
    panics : {w : World vm} → Post P (panicked w)

  pub Post-bind :
      {A B : Type 0} {Q : A → World vm → Type 0} {P : B → World vm → Type 0} {e : Ended vm A}
      {f : A → M vm B}
      → Post Q e
      → ((a : A) (w : World vm) → Q a w → Post P (f a w))
      → Post P (continue e f)
  Post-bind (returns {a} {w} q) k = k a w q
  Post-bind raises k = raises
  Post-bind panics k = panics

  pub Post-map :
      {A : Type 0} {Q P : A → World vm → Type 0} {e : Ended vm A}
      → Post Q e
      → ((a : A) (w : World vm) → Q a w → P a w)
      → Post P e
  Post-map (returns {a} {w} q) k = returns (k a w q)
  Post-map raises k = raises
  Post-map panics k = panics

  abbrev AtReturn : {A : Type 0} → (A → World vm → Type 0) → Ended vm A → Type 0
  AtReturn P (returned a w) = P a w
  AtReturn P (raised w) = Unit {0}
  AtReturn P (panicked w) = Unit {0}

  Post-AtReturn :
      {A : Type 0} {P : A → World vm → Type 0} {e : Ended vm A} → Post P e → AtReturn P e
  Post-AtReturn (returns p) = p
  Post-AtReturn raises = tt
  Post-AtReturn panics = tt

  pub Post-returned :
      {A : Type 0} {P : A → World vm → Type 0} {e : Ended vm A} {a : A} {w : World vm}
      → Post P e
      → e ≡ returned a w
      → P a w
  Post-returned {P} p q = subst (AtReturn P) q (Post-AtReturn p)

  extended : {w : World vm} {s : vm.State} → Extends vm (w.ruby) s → Kept w (record w { ruby = s })
  extended e = record { ruby = e; caches = λ k. refl }

  -- A function keeps what is known, and adds facts about what it returns.
  pub record Adds {A : Type 0} (new : A → List (Fact vm)) (w : World vm) (e : Ended vm A)
      : Type 0 where
    pub ends : Post (λ a w'. Kept w w' × Holds (new a) w') e

  -- What is known of a world, and that it came from another one.
  pub record Knows (w₀ : World vm) (fs : List (Fact vm)) (w : World vm) : Type 0 where
    pub since : Kept w₀ w
    pub all : Holds fs w

  pub Knows-start : (w : World vm) → Knows w [] w
  Knows-start w = record { since = Kept-refl w; all = tt }

  Holds-append :
      (w : World vm) (fs gs : List (Fact vm)) → Holds fs w → Holds gs w → Holds (fs ++ gs) w
  Holds-append w [] gs h k = k
  Holds-append w (f ∷ fs) gs h k = (h.0, Holds-append w fs gs (h.1) k)

  pub Post-step :
      {A B : Type 0} {new : A → List (Fact vm)} {P : B → World vm → Type 0} {e : Ended vm A}
      {f : A → M vm B} {fs : List (Fact vm)} {w₀ w : World vm}
      → Knows w₀ fs w
      → Adds new w e
      → ((a : A) (w' : World vm) → Knows w₀ (new a ++ fs) w' → Post P (f a w'))
      → Post P (continue e f)
  Post-step {new} {fs} h q k = Post-bind (q.ends) (λ a w' r. k a w' (record {
    since = Kept-trans (h.since) (r.0);
    all = Holds-append w' (new a) fs (r.1) (Holds-Kept fs (r.0) (h.all));
  }))

  -- A function that makes calls of which nothing but the world is used later.
  abbrev pub Keeps : {A : Type 0} → World vm → Ended vm A → Type 0
  Keeps w e = Adds (λ _. []) w e

  Post-since :
      {A : Type 0} {w₁ w₂ : World vm} {e : Ended vm A}
      → Kept w₁ w₂
      → Post (λ a w'. Kept w₂ w' × Unit {0}) e
      → Post (λ a w'. Kept w₁ w' × Unit {0}) e
  Post-since h (returns (h', _)) = returns (Kept-trans h h', tt)
  Post-since h raises = raises
  Post-since h panics = panics

  Keeps-continue :
      {A B : Type 0} (new : A → List (Fact vm)) {w : World vm} {e : Ended vm A} (f : A → M vm B)
      → Post (λ a w'. Kept w w' × Holds (new a) w') e
      → ((a : A) (w' : World vm) → Keeps w' (f a w'))
      → Post (λ a w'. Kept w w' × Unit {0}) (continue e f)
  Keeps-continue new f (returns {a} {w = w'} (h, _)) k = Post-since h ((k a w').ends)
  Keeps-continue new f raises k = raises
  Keeps-continue new f panics k = panics

  pub Keeps-bind :
      {A B : Type 0} {new : A → List (Fact vm)} {w : World vm} {e : Ended vm A} {f : A → M vm B}
      → Adds new w e
      → ((a : A) (w' : World vm) → Keeps w' (f a w'))
      → Keeps w (continue e f)
  Keeps-bind {new} {f} q k = record { ends = Keeps-continue new f (q.ends) k }

  kept :
      {A : Type 0} {new : A → List (Fact vm)} {w w' : World vm} (a : A)
      → Kept w w'
      → Holds (new a) w'
      → Adds new w (returned a w')
  kept a k h = record { ends = returns (k, h) }

  raised-Adds : {A : Type 0} {new : A → List (Fact vm)} {w w' : World vm} → Adds new w (raised w')
  raised-Adds = record { ends = raises }
