-- ===== src/Prelude/Integers.antt =====
-- Machine integers below their bounds, signed, over the native numbers; and lookups in a map.
use Prim.Native.Nat.{ℕ}
use Prim.Native.String.{String}
use mathlib.Core.Path.{◌≡◌}
use mathlib.Core.Bool.{Bool, true, false}
use mathlib.Core.Option.{Option, none, some}
use mathlib.Core.List.{List, [], ◌∷◌}
use native.Mathlib.Omega.{arith}
use hasteward.Prelude.Tests.{ltb, ◌==◌, if◌then◌else◌}
use hasteward.Prelude.Text.{str_eq}

-- `negsuc n` is -(n + 1).
pub data ℤ : Type 0 where
  pos negsuc : ℕ → ℤ

abbrev pub int_ltb : ℤ → ℤ → Bool
int_ltb (pos a) (pos b) = ltb a b
int_ltb (pos a) (negsuc b) = false
int_ltb (negsuc a) (pos b) = true
int_ltb (negsuc a) (negsuc b) = ltb b a

abbrev pub int_eq : ℤ → ℤ → Bool
int_eq (pos a) (pos b) = a == b
int_eq (pos a) (negsuc b) = false
int_eq (negsuc a) (pos b) = false
int_eq (negsuc a) (negsuc b) = a == b

pub int_ltb_irrefl : (a : ℤ) → int_ltb a a ≡ false
int_ltb_irrefl (pos a) = ground arith
int_ltb_irrefl (negsuc a) = ground arith

-- Nothing that is not below `b` is below what `b` does not exceed.
pub int_ltb_trans : (a b c : ℤ) → int_ltb a b ≡ false → int_ltb b c ≡ false → int_ltb a c ≡ false
int_ltb_trans (pos a) (pos b) (pos c) p q = ground arith
int_ltb_trans (pos a) (pos b) (negsuc c) p q = ground arith
int_ltb_trans (pos a) (negsuc b) (pos c) p q = ground arith
int_ltb_trans (pos a) (negsuc b) (negsuc c) p q = ground arith
int_ltb_trans (negsuc a) (pos b) (pos c) p q = ground arith
int_ltb_trans (negsuc a) (pos b) (negsuc c) p q = ground arith
int_ltb_trans (negsuc a) (negsuc b) (pos c) p q = ground arith
int_ltb_trans (negsuc a) (negsuc b) (negsuc c) p q = ground arith

pub int_ltb_asym : (a b : ℤ) → int_ltb a b ≡ true → int_ltb b a ≡ false
int_ltb_asym (pos a) (pos b) p = ground arith
int_ltb_asym (pos a) (negsuc b) p = ground arith
int_ltb_asym (negsuc a) (pos b) p = ground arith
int_ltb_asym (negsuc a) (negsuc b) p = ground arith

-- A map from texts, as a list of entries whose keys are unique.
abbrev pub find {ℓ} : {A : Type ℓ} → String → List (String × A) → Option A
find key [] = none
find key ((k, v) ∷ m) = if str_eq k key then some v else find key m

abbrev pub find_or {ℓ} : {A : Type ℓ} → A → String → List (String × A) → A
find_or d key m = elim (find key m) [ none ↦ d | some v ↦ v ]
