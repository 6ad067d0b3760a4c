-- ===== src/Tests/RetentionRuns.antt =====
-- Two escrow runs, the older one of two volumes.
use hasteward.Prelude.{
  ℕ, ◌+◌, ◌≤◌, String, true, false, List, [], ◌∷◌, ◌≡◌, refl, inl, inr, Elem, select,
}
use hasteward.Repair.{insert, sort}
use hasteward.Retention.{
  EscrowSnapshot, EscrowGroup, fold_escrows, add_snapshot, group_escrows, insert_group,
  newest_first, select_from, select_for_release, prune_names, released_names, prune_escrow,
}
use hasteward.Retention.Release.{past_first, is_old, total, select_for_release-IsPolicy}
use hasteward.Retention.Pruning.{prune_escrow-IsOld}

abbrev shot : String → String → ℕ → EscrowSnapshot
shot name run at = record { name = name; run_id = run; kind = "unwedge"; captured_at = at }

abbrev listed : List EscrowSnapshot
listed = shot "a-data" "run-1" 10 ∷ shot "a-wal" "run-1" 12 ∷ shot "b-data" "run-2" 90 ∷ []

abbrev groups : List EscrowGroup
groups = newest_first (group_escrows listed)

releases : (prune_escrow false (λ n. true) listed 1 24 100).1.deleted ≡ "a-data" ∷ "a-wal" ∷ []
unfolding prune_escrow group_escrows fold_escrows insert sort add_snapshot newest_first insert_group
    select_for_release select_from prune_names released_names
releases = refl

-- The floor of the age overrides the number of runs to keep.
holds : (prune_escrow false (λ n. true) listed 0 95 100).1.deleted ≡ []
unfolding prune_escrow group_escrows fold_escrows insert sort add_snapshot newest_first insert_group
    select_for_release select_from prune_names released_names
holds = refl

select_for_release-IsPolicy_example :
    ((select_for_release groups 1 24 100).release ≡ select (is_old 24 100) (past_first 1 groups))
    × ((select_for_release groups 1 24 100).count
          + total (select_for_release groups 1 24 100).release
        ≡ total groups)
select_for_release-IsPolicy_example = select_for_release-IsPolicy groups 1 24 100

abbrev released : String
released = "a-wal"

prune_escrow-IsOld_example :
    (false ≡ false)
    × ((s : EscrowSnapshot) × Elem s listed × (s.name ≡ released) × (s.captured_at + 24 ≤ 100))
unfolding prune_escrow group_escrows fold_escrows insert sort add_snapshot newest_first insert_group
    select_for_release select_from prune_names released_names
prune_escrow-IsOld_example =
    prune_escrow-IsOld false (λ n. true) listed 1 24 100 released (inr (inl refl))
