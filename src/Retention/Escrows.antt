-- ===== src/Retention/Escrows.antt =====
-- src/engine/retention/escrow.go: `groupEscrows`, `selectForRelease` and `pruneEscrow`. Times are
-- natural numbers of one unit.
-- The report of unmanaged snapshots is left out.
use Prim.Native.String.{◌++◌ as str_append}
use hasteward.Prelude.{
  map, ℕ, suc, ◌+◌, String, Bool, true, false, List, [], ◌∷◌, ◌++◌, length, ltb, if◌then◌else◌,
  str_eq,
}
use hasteward.Repair.{sort}

pub record EscrowSnapshot : Type 0 where
  pub name : String
  -- The labels of run and kind, "" for none, and `capturedAt`.
  pub run_id : String
  pub kind : String
  pub captured_at : ℕ

pub record EscrowGroup : Type 0 where
  pub run_id : String
  pub kind : String
  pub captured_at : ℕ
  pub snapshots : List String

pub record Selected : Type 0 where
  pub count : ℕ
  pub within_min_age : List EscrowGroup
  pub release : List EscrowGroup

abbrev pub run_of : EscrowSnapshot → String
run_of s = if str_eq s.run_id "" then str_append "unruled-" s.name else s.run_id

abbrev pub new_group : EscrowSnapshot → EscrowGroup
new_group s = record {
  run_id = run_of s;
  kind = if str_eq s.kind "" then "unknown" else s.kind;
  captured_at = s.captured_at;
  snapshots = s.name ∷ [];
}

abbrev pub join_group : EscrowSnapshot → EscrowGroup → EscrowGroup
join_group s g = record {
  run_id = g.run_id;
  kind = g.kind;
  captured_at = if ltb g.captured_at s.captured_at then s.captured_at else g.captured_at;
  snapshots = g.snapshots ++ s.name ∷ [];
}

unfoldable pub add_snapshot : List EscrowGroup → EscrowSnapshot → List EscrowGroup
add_snapshot [] s = new_group s ∷ []
add_snapshot (g ∷ gs) s =
    if str_eq g.run_id (run_of s) then join_group s g ∷ gs else g ∷ add_snapshot gs s

unfoldable pub fold_escrows : List EscrowGroup → List EscrowSnapshot → List EscrowGroup
fold_escrows groups [] = groups
fold_escrows groups (s ∷ ss) = fold_escrows (add_snapshot groups s) ss

abbrev pub sort_names : EscrowGroup → EscrowGroup
sort_names g = record {
  run_id = g.run_id;
  kind = g.kind;
  captured_at = g.captured_at;
  snapshots = sort g.snapshots;
}

unfoldable pub group_escrows : List EscrowSnapshot → List EscrowGroup
group_escrows items = map sort_names (fold_escrows [] items)

-- Newest first.
unfoldable pub insert_group : EscrowGroup → List EscrowGroup → List EscrowGroup
insert_group g [] = g ∷ []
insert_group g (h ∷ hs) =
    if ltb g.captured_at h.captured_at then h ∷ insert_group g hs else g ∷ h ∷ hs

unfoldable pub newest_first : List EscrowGroup → List EscrowGroup
newest_first [] = []
newest_first (g ∷ gs) = insert_group g (newest_first gs)

abbrev pub nothing_selected : Selected
nothing_selected = record { count = 0; within_min_age = []; release = [] }

-- The group at index `i`; the age test is `now - minAge < capturedAt`.
abbrev pub select_one : Bool → Bool → EscrowGroup → Selected → Selected
select_one true young g r = record {
  count = length g.snapshots + r.count;
  within_min_age = r.within_min_age;
  release = r.release;
}
select_one false true g r = record {
  count = length g.snapshots + r.count;
  within_min_age = g ∷ r.within_min_age;
  release = r.release;
}
select_one false false g r = record {
  count = r.count;
  within_min_age = r.within_min_age;
  release = g ∷ r.release;
}

unfoldable pub select_from : ℕ → List EscrowGroup → ℕ → ℕ → ℕ → Selected
select_from i [] keep_last min_age now = nothing_selected
select_from i (g ∷ gs) keep_last min_age now =
    select_one (ltb i keep_last) (ltb now (g.captured_at + min_age)) g
      (select_from (suc i) gs keep_last min_age now)

unfoldable pub select_for_release : List EscrowGroup → ℕ → ℕ → ℕ → Selected
select_for_release groups keep_last min_age now = select_from 0 groups keep_last min_age now

-- The names that were deleted, and the number that is reported as removed.
pub record Pruned : Type 0 where
  pub deleted : List String
  pub removed : ℕ

abbrev pub prune_one : Bool → Bool → String → Pruned → Pruned
prune_one true gone name p = record { deleted = p.deleted; removed = suc p.removed }
prune_one false true name p = record { deleted = name ∷ p.deleted; removed = suc p.removed }
prune_one false false name p = p

-- `gone` says whether the deletion of a snapshot succeeds, or finds it deleted before.
unfoldable pub prune_names : Bool → (String → Bool) → List String → Pruned
prune_names dry_run gone [] = record { deleted = []; removed = 0 }
prune_names dry_run gone (n ∷ ns) = prune_one dry_run (gone n) n (prune_names dry_run gone ns)

unfoldable pub released_names : List EscrowGroup → List String
released_names [] = []
released_names (g ∷ gs) = g.snapshots ++ released_names gs

unfoldable pub prune_escrow : Bool → (String → Bool) → List EscrowSnapshot → ℕ → ℕ → ℕ → ℕ × Pruned
prune_escrow dry_run gone items keep_last min_age now =
    let chosen = select_for_release (newest_first (group_escrows items)) keep_last min_age now in
    (chosen.count, prune_names dry_run gone (released_names chosen.release))
