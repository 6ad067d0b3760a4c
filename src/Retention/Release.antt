-- ===== src/Retention/Release.antt =====
-- Which escrows may be released (src/engine/retention/escrow.go).
use hasteward.Prelude.{
  ℕ, suc, zero, ◌+◌, ◌≤◌, Bool, true, false, List, [], ◌∷◌, length, ltb, leb, ◌≡◌, refl, inr, Elem,
  select, arith,
}
use hasteward.Retention.Escrows.{EscrowGroup, Selected, select_one, select_from, select_for_release}

abbrev drop : ℕ → List EscrowGroup → List EscrowGroup
drop zero gs = gs
drop (suc n) [] = []
drop (suc n) (g ∷ gs) = drop n gs

pub past_first : ℕ → List EscrowGroup → List EscrowGroup
past_first = drop

-- The group has reached the minimum age.
abbrev pub is_old : ℕ → ℕ → EscrowGroup → Bool
is_old min_age now g = leb (g.captured_at + min_age) now

-- The number of snapshots of the groups.
pub total : List EscrowGroup → ℕ
total [] = 0
total (g ∷ gs) = length g.snapshots + total gs

select_one-total :
    (first young : Bool) (g : EscrowGroup) (r : Selected) (n : ℕ)
    → r.count + total r.release ≡ n
    → (select_one first young g r).count + total (select_one first young g r).release
      ≡ length g.snapshots + n
unfolding total
select_one-total true young g r n h = omega (arith, h)
select_one-total false true g r n h = omega (arith, h)
select_one-total false false g r n h = omega (arith, h)

select_from-total :
    (gs : List EscrowGroup) (i keep min_age now : ℕ)
    → (select_from i gs keep min_age now).count + total (select_from i gs keep min_age now).release
      ≡ total gs
unfolding total select_from
select_from-total [] i keep min_age now = refl
select_from-total (g ∷ gs) i keep min_age now =
    select_one-total (ltb i keep) (ltb now (g.captured_at + min_age)) g _ _
      (select_from-total gs (suc i) keep min_age now)

select_from-late :
    (gs : List EscrowGroup) (i keep min_age now : ℕ)
    → keep ≤ i
    → (select_from i gs keep min_age now).release ≡ select (is_old min_age now) gs
unfolding select_from
select_from-late [] i keep min_age now h = refl
select_from-late (g ∷ gs) i keep min_age now h =
    ground (arith, select_from-late gs (suc i) keep min_age now (omega (arith, h)))

select_from-release :
    (n : ℕ) (gs : List EscrowGroup) (i keep min_age now : ℕ)
    → n + i ≡ keep
    → (select_from i gs keep min_age now).release ≡ select (is_old min_age now) (drop n gs)
unfolding select_from
select_from-release zero gs i keep min_age now h =
    select_from-late gs i keep min_age now (omega (arith, h))
select_from-release (suc n) [] i keep min_age now h = refl
select_from-release (suc n) (g ∷ gs) i keep min_age now h =
    ground (arith, select_from-release n gs (suc i) keep min_age now (omega (arith, h)))

-- Released are exactly the groups past the first `keepLast` that have reached the minimum age, and
-- the count of kept snapshots is that of all other groups.
pub select_for_release-IsPolicy :
    (groups : List EscrowGroup) (keep_last min_age now : ℕ)
    → ((select_for_release groups keep_last min_age now).release
        ≡ select (is_old min_age now) (past_first keep_last groups))
      × ((select_for_release groups keep_last min_age now).count
            + total (select_for_release groups keep_last min_age now).release
          ≡ total groups)
unfolding select_for_release past_first
select_for_release-IsPolicy groups keep_last min_age now = (
  select_from-release keep_last groups 0 keep_last min_age now (omega arith),
  select_from-total groups 0 keep_last min_age now,
)

pub Elem-past_first :
    (n : ℕ) (gs : List EscrowGroup) (g : EscrowGroup) → Elem g (past_first n gs) → Elem g gs
unfolding past_first
Elem-past_first zero gs g m = m
Elem-past_first (suc n) [] g m = elim m [ ]
Elem-past_first (suc n) (k ∷ gs) g m = inr (Elem-past_first n gs g m)
