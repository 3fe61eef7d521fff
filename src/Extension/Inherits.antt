-- ===== src/Extension/Inherits.antt =====
-- Ruby classes that inherit from others, found under a constant, as the code of ext/aws_crt/src that
-- raises errors relies on.
use aws_crt.Prelude.{true, ◌≡◌, Option, none, some, String}
use aws_crt.Extension.Vm.{Vm, Extends, Laws}
use aws_crt.Extension.World.{World}

module _ {vm : Vm} where
  -- A class is another one or inherits from it.
  pub data Descends (w : World vm) (e : vm.Object) : vm.Object → Type 0 where
    itself : Descends w e e
    below : {c d : vm.Object} → vm.superclass c (w.ruby) ≡ some d → Descends w e d → Descends w e c

  pub Descends-Extends :
      {w w' : World vm} {e c : vm.Object}
      → Extends vm (w.ruby) (w'.ruby)
      → Descends w e c
      → Descends w' e c
  Descends-Extends k itself = itself
  Descends-Extends k (below {c} {d} p h) = below (k.parents c d p) (Descends-Extends k h)

  pub Descends-exception :
      {w : World vm} {e c : vm.Object} (laws : Laws vm)
      → Descends w e c
      → vm.is_exception e (w.ruby) ≡ true
      → vm.is_exception c (w.ruby) ≡ true
  Descends-exception laws itself h = h
  Descends-exception {w} laws (below {c} {d} p k) h =
      laws.exception_inherited c d (w.ruby) p (Descends-exception laws k h)

  -- A constant of a module holds a class that is another one or inherits from it.
  pub record ClassIn (w : World vm) (m : vm.Object) (n : String) (base : vm.Object) : Type 0 where
    pub found : vm.Object
    pub named : vm.const_get m n (w.ruby) ≡ some found
    pub descends : Descends w base found

  pub ClassIn-Extends :
      {w w' : World vm} {m base : vm.Object} {n : String}
      → Extends vm (w.ruby) (w'.ruby)
      → ClassIn w m n base
      → ClassIn w' m n base
  ClassIn-Extends {m} {base} {n} k c = record {
    found = c.found;
    named = k.constants m n (c.found) (c.named);
    descends = Descends-Extends k (c.descends);
  }

  abbrev pub ClassFor : World vm → vm.Object → vm.Object → Option String → Type 0
  ClassFor w m base none = Unit {0}
  ClassFor w m base (some n) = ClassIn w m n base

  pub ClassFor-Extends :
      (w w' : World vm) (m base : vm.Object) (o : Option String)
      → Extends vm (w.ruby) (w'.ruby)
      → ClassFor w m base o
      → ClassFor w' m base o
  ClassFor-Extends w w' m base none k c = tt
  ClassFor-Extends w w' m base (some n) k c = ClassIn-Extends k c
