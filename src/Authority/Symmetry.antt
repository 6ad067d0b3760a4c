-- ===== src/Authority/Symmetry.antt =====
-- `relate` does not depend on the order in which the loop visits the two instances.
use hasteward.Prelude.{
  ℕ, zero, suc, ◌-◌, ◌≤◌, ◌<◌, ◌≡◌, refl, List, [], ◌∷◌, length, get_or, arith, inl, inr,
  Bool-cases,
}
use hasteward.Authority.Defs.{
  SwitchPoint, Input, Relation, diverge, equal, a_dominates_b, b_dominates_a, switch_eq, no_switch,
  common_prefix_len, last_switch_lsn, extension_relation, relate_same, relate_fork, relate,
}
use hasteward.Authority.Coverage.{switch_eq-eq}

abbrev pub flip : Relation → Relation
flip a_dominates_b = b_dominates_a
flip b_dominates_a = a_dominates_b
flip diverge = diverge
flip equal = equal

switch_eq_comm : (x y : SwitchPoint) → switch_eq x y ≡ switch_eq y x
switch_eq_comm x y = ground arith

common_prefix_len_comm :
    (xs ys : List SwitchPoint) → common_prefix_len xs ys ≡ common_prefix_len ys xs
unfolding common_prefix_len
common_prefix_len_comm [] [] = refl
common_prefix_len_comm [] (y ∷ ys) = refl
common_prefix_len_comm (x ∷ xs) [] = refl
common_prefix_len_comm (x ∷ xs) (y ∷ ys) = rw (switch_eq_comm x y, common_prefix_len_comm xs ys)

pub common_prefix_len_le :
    (xs ys : List SwitchPoint)
    → (common_prefix_len xs ys ≤ length xs) × (common_prefix_len xs ys ≤ length ys)
unfolding common_prefix_len
common_prefix_len_le [] ys = omega arith
common_prefix_len_le (x ∷ xs) [] = omega arith
common_prefix_len_le (x ∷ xs) (y ∷ ys) = ground (arith, common_prefix_len_le xs ys)

get_or_shared :
    (xs ys : List SwitchPoint) (i : ℕ)
    → i < common_prefix_len xs ys
    → get_or xs i no_switch ≡ get_or ys i no_switch
unfolding common_prefix_len
get_or_shared [] ys i h = absurd (omega arith)
get_or_shared (x ∷ xs) [] i h = absurd (omega arith)
get_or_shared (x ∷ xs) (y ∷ ys) zero h = ground (arith, switch_eq-eq x y)
get_or_shared (x ∷ xs) (y ∷ ys) (suc i) h = elim (Bool-cases (switch_eq x y)) [
  | inl e ↦ get_or_shared xs ys i (ground (arith, e))
  | inr e ↦ absurd (ground (arith, e))
]

last_switch_lsn_at :
    (xs : List SwitchPoint) (u : ℕ)
    → suc u ≤ length xs
    → last_switch_lsn xs (suc u) ≡ (get_or xs u no_switch).switch_lsn
unfolding last_switch_lsn
last_switch_lsn_at [] u h = absurd (omega arith)
last_switch_lsn_at (s ∷ sw) u h = let at : suc u - 1 ≡ u = omega arith in ground (arith, at)

last_switch_lsn_zero : (xs : List SwitchPoint) → last_switch_lsn xs 0 ≡ 0
unfolding last_switch_lsn
last_switch_lsn_zero [] = refl
last_switch_lsn_zero (s ∷ sw) = refl

last_switch_lsn_shared :
    (xs ys : List SwitchPoint) (k : ℕ)
    → k ≡ common_prefix_len xs ys
    → last_switch_lsn xs k ≡ last_switch_lsn ys k
last_switch_lsn_shared xs ys zero e =
    ground (arith, last_switch_lsn_zero xs, last_switch_lsn_zero ys)
last_switch_lsn_shared xs ys (suc u) e =
    let le = common_prefix_len_le xs ys in
    ground (
      arith,
      last_switch_lsn_at xs u (omega (arith, le.0)),
      last_switch_lsn_at ys u (omega (arith, le.1)),
      get_or_shared xs ys u (omega arith),
    )

-- Swapping the arguments of `relate` swaps the verdict and keeps the fork.
pub relate-swap : (a b : Input) → relate b a ≡ (flip (relate a b).0, (relate a b).1)
unfolding relate relate_same relate_fork extension_relation
relate-swap a b = ground (
  arith,
  common_prefix_len_comm a.switches b.switches,
  common_prefix_len_le a.switches b.switches,
  last_switch_lsn_shared a.switches b.switches (common_prefix_len a.switches b.switches) refl,
)
