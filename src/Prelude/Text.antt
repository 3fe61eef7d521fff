-- ===== src/Prelude/Text.antt =====
-- Texts as their characters' numbers.
use Prim.Native.Nat.{ℕ}
use Prim.Native.Char.{code}
use Prim.Native.String.{String, [], ◌∷◌}
use mathlib.Core.List.{List, [] as nil, ◌∷◌ as cons}

unfoldable pub codes : String → List ℕ
codes [] = nil
codes (c ∷ s) = cons (code c) (codes s)
