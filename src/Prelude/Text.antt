-- ===== src/Prelude/Text.antt =====
-- Texts: equality, and Go's order on strings.
use Prim.Native.Nat.{ℕ}
use Prim.Native.Char.{code}
use Prim.Native.String.{String}
use mathlib.Core.Bool.{Bool, true, false}
use mathlib.Core.List.{List, [], ◌∷◌}
use mathlib.Core.Path.{◌≡◌}
use mathlib.Core.Logic.{inl, inr}
use hasteward.Prelude.Tests.{ltb, ◌==◌, if◌then◌else◌, Bool-cases}
use hasteward.Prelude.Lists.{any, Elem}
pub use text.Mathlib.Text.{◌==◌ as str_eq}
pub use text.Mathlib.TextEquality.{eq_iff}
pub use text.Mathlib.TextPositions.{eq_refl}

abbrev pub codes : String → List ℕ
codes String.[] = []
codes (String.◌∷◌ c s) = code c ∷ codes s

-- The order of two code-point sequences. UTF-8 keeps it, so it is Go's bytewise `<`.
abbrev pub codes_ltb : List ℕ → List ℕ → Bool
codes_ltb xs [] = false
codes_ltb [] (y ∷ ys) = true
codes_ltb (x ∷ xs) (y ∷ ys) = if x == y then codes_ltb xs ys else ltb x y

abbrev pub str_ltb : String → String → Bool
str_ltb a b = codes_ltb (codes a) (codes b)

pub any-Elem : (u : String) (l : List String) → any (str_eq u) l ≡ true → Elem u l
any-Elem u [] h = absurd (cc)
any-Elem u (x ∷ xs) h = elim (Bool-cases (str_eq u x)) [
  | inl t ↦ inl ((eq_iff u x).0 t)
  | inr f ↦ inr (any-Elem u xs (rw f at h))
]
