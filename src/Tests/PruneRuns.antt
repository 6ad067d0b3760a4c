-- ===== src/Tests/PruneRuns.antt =====
-- A prune of the primary's WAL, the retention of backups, and an LSN.
use hasteward.Prelude.{
  All, ◌≤◌, ℕ, codes, String, Bool, true, false, none, some, List, [], ◌∷◌, ◌++◌, ◌≡◌, refl, inl,
  inr, Elem, arith,
}
use hasteward.Model.{InstanceAssessment, TriageResult}
use hasteward.PruneWal.{
  Codes, parse_lsn, format_lsn, Answers, prune_gate, ready_replicas_of, prune_wal_on_pvc, prune_wal,
  lagging, assert_replicas_caught_up, scan_hex, parse_uint, trim_left, trim_right, trim_space, cut,
  bit_or, join_words, print_hex, split_lines, has_prefix, contains_codes, last_field_from,
  last_field, read_rows, base_from, base_of, listed_paths, older_than,
}
use hasteward.PruneWal.Printed.{parse_lsn-format_lsn}
use hasteward.PruneWal.Deleted.{IsPrunable, prune_wal-IsPrunable}
use hasteward.Retention.{
  Snapshot, JobGroup, RetentionPolicy, group_by_job, fold_jobs, add_to_job, job_of,
  newest_jobs_first, insert_job, keep_first, keep_windows, keep_set, apply_group_retention,
  forget_each, forget_grouped,
}
use hasteward.Retention.Keeping.{LetsGo, forget_grouped-LetsGo}
use hasteward.Tests.TriageRuns.{replica, primary, frozen}

prints : format_lsn 22 ≡ codes "0/16"
unfolding format_lsn print_hex
prints = refl

refuses_garbage : parse_lsn (codes "0/1G") ≡ none
unfolding parse_lsn trim_space trim_left trim_right cut parse_uint scan_hex
refuses_garbage = refl

parse_lsn-format_lsn_example : parse_lsn (format_lsn 22) ≡ some 22
parse_lsn-format_lsn_example = parse_lsn-format_lsn 22 (omega arith)

abbrev streaming : InstanceAssessment
streaming = record replica { is_running = true; is_ready = true }

abbrev pruned : TriageResult
pruned = record frozen { assessments = primary ∷ streaming ∷ [] }

abbrev newline : Codes
newline = 10 ∷ []

abbrev answers : Answers
answers = record {
  controldata = some (codes "REDO location: 0/20" ++ (newline ++ codes "REDO WAL file: 0B"));
  replay_of = λ pod. some (codes " 0/21");
  listing = some (codes "wal/0A" ++ (newline ++ codes "wal/0B"));
  rm_ok = true;
  directory = [];
  sweep_ok = true;
}

prune_wal-IsPrunable_example :
    (false ≡ false) × IsPrunable answers pruned primary "pg-1" "pg-1" false (codes "wal/0A")
unfolding prune_wal prune_wal_on_pvc prune_gate ready_replicas_of older_than listed_paths base_of
    base_from split_lines read_rows last_field last_field_from contains_codes has_prefix trim_space
    trim_left trim_right assert_replicas_caught_up lagging parse_lsn cut parse_uint scan_hex
    join_words bit_or
prune_wal-IsPrunable_example =
    prune_wal-IsPrunable answers pruned 1 primary "pg-1" "pg-1" false false (codes "wal/0A")
      (inl refl)

abbrev snapshot : String → ℕ → String → Snapshot
snapshot id time job = record { id = id; short_id = id; time = time; job = job }

abbrev snapshots : List Snapshot
snapshots = snapshot "a" 1 "old" ∷ snapshot "b" 9 "new" ∷ snapshot "c" 2 "old" ∷ []

abbrev policy : RetentionPolicy
policy = record { keep_last = 1; keep_daily = 0; keep_weekly = 0; keep_monthly = 0 }

abbrev label : ℕ → String
label t = "1970-01-01"

abbrev allowed : String → Bool
allowed id = true

forgets :
    (forget_grouped label label label allowed snapshots policy true true).removed ≡ "a" ∷ "c" ∷ []
unfolding forget_grouped group_by_job fold_jobs add_to_job job_of newest_jobs_first insert_job
    apply_group_retention keep_set keep_first keep_windows forget_each
forgets = refl

forget_grouped-LetsGo_example :
    (newer : List JobGroup) × ((g : JobGroup) × ((older : List JobGroup) × ((group_by_job snapshots
            ≡ newer ++ (g ∷ older))
          × (All (λ h. g.time ≤ h.time) newer
              × (LetsGo label label label policy newer g
                  × ((s : Snapshot) × (Elem s g.snapshots × (s.id ≡ "c"))))))))
unfolding forget_grouped group_by_job fold_jobs add_to_job job_of newest_jobs_first insert_job
    apply_group_retention keep_set keep_first keep_windows forget_each
forget_grouped-LetsGo_example =
    forget_grouped-LetsGo label label label allowed snapshots policy true true "c" (inr (inl refl))
