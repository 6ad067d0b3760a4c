-- ===== src/Authority/Coverage.antt =====
-- What the lineage comparison promises: the WAL that an instance provably holds, and that the
-- dominant instance of `relate` holds all of the other's.
use hasteward.Prelude.{
  ℕ, ◌≤◌, ◌<◌, ◌≡◌, refl, subst, Bool, true, false, List, [], ◌∷◌, ◌++◌, All, arith,
}
use hasteward.Authority.Defs.{SwitchPoint, Input, switch_eq}

-- A byte of WAL: the switches that were passed on the way to it, its timeline and its LSN.
pub record Position : Type 0 where
  pub branch : List SwitchPoint
  pub timeline : ℕ
  pub lsn : ℕ

-- The byte lies on the path of a lineage: on the timeline that a switch closes, or on the last.
abbrev pub OnPath : List SwitchPoint → ℕ → List SwitchPoint → ℕ → ℕ → Type 0
OnPath [] last [] t x = t ≡ last
OnPath [] last (b ∷ br) t x = ⊥
OnPath (s ∷ sw) last [] t x = (t ≡ s.parent_timeline) × (x ≤ s.switch_lsn)
OnPath (s ∷ sw) last (b ∷ br) t x = (s ≡ b) × (s.switch_lsn < x) × OnPath sw last br t x

-- The instance holds the byte: it lies on its lineage, at or before its checkpoint. No byte of WAL
-- has LSN 0.
abbrev pub Holds : Input → Position → Type 0
Holds i p =
    (0 < p.lsn)
    × (p.lsn ≤ i.checkpoint_lsn)
    × OnPath i.switches i.timeline p.branch p.timeline p.lsn

-- The first instance holds every byte of WAL that the second holds.
abbrev pub Covers : Input → Input → Type 0
Covers a b = (p : Position) → Holds b p → Holds a p

-- The checkpoint of the instance lies at or past every switch of its own lineage.
abbrev pub IsRecovered : Input → Type 0
IsRecovered i = All (λ s. s.switch_lsn ≤ i.checkpoint_lsn) i.switches

-- How two switch chains lie to one another.
pub data Chains : List SwitchPoint → List SwitchPoint → Type 0 where
  same : (sw : List SwitchPoint) → Chains sw sw
  left_longer :
      (sw : List SwitchPoint) (f : SwitchPoint) (rest : List SwitchPoint)
      → Chains (sw ++ f ∷ rest) sw
  right_longer :
      (sw : List SwitchPoint) (f : SwitchPoint) (rest : List SwitchPoint)
      → Chains sw (sw ++ f ∷ rest)
  forked :
      (pre : List SwitchPoint) (x y : SwitchPoint) (xs ys : List SwitchPoint)
      → switch_eq x y ≡ false
      → Chains (pre ++ x ∷ xs) (pre ++ y ∷ ys)

pub switch_eq-eq : (x y : SwitchPoint) → switch_eq x y ≡ true → x ≡ y
switch_eq-eq x y h = ground arith

pub switch_eq_self : (x : SwitchPoint) → switch_eq x x ≡ true
switch_eq_self x = ground arith

Chains-cons : (x : SwitchPoint) {xs ys : List SwitchPoint} → Chains xs ys → Chains (x ∷ xs) (x ∷ ys)
Chains-cons x (same sw) = same (x ∷ sw)
Chains-cons x (left_longer sw f rest) = left_longer (x ∷ sw) f rest
Chains-cons x (right_longer sw f rest) = right_longer (x ∷ sw) f rest
Chains-cons x (forked pre y z ys zs h) = forked (x ∷ pre) y z ys zs h

pub chains : (xs ys : List SwitchPoint) → Chains xs ys
chains [] [] = same []
chains [] (y ∷ ys) = right_longer [] y ys
chains (x ∷ xs) [] = left_longer [] x xs
chains (x ∷ xs) (y ∷ ys) = go (switch_eq x y) refl (chains xs ys)
  where
    go : (b : Bool) → switch_eq x y ≡ b → Chains xs ys → Chains (x ∷ xs) (y ∷ ys)
    go true e c = subst (λ z. Chains (x ∷ xs) (z ∷ ys)) (switch_eq-eq x y e) (Chains-cons x c)
    go false e c = forked [] x y xs ys e
