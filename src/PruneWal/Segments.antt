-- ===== src/PruneWal/Segments.antt =====
-- `PruneWAL`, `readCheckpointBoundary`, `deleteWALOlderThan`, `pruneWALOnPVC` and `lastField` of
-- src/engine/prunewal/cnpg.go. A text is the list of its codes.
use hasteward.Prelude.{
  ℕ, ◌==◌, codes, codes_ltb, select, String, Bool, true, false, ◌&&◌, ◌||◌, not, Option, none, some,
  List, [], ◌∷◌, ◌++◌, map, if◌then◌else◌,
}
use hasteward.Triage.{is_empty}
use hasteward.PruneWal.Lsn.{Codes, is_space, trim_space}
use hasteward.Model.{InstanceAssessment, TriageResult}
use hasteward.PruneWal.Gates.{Cleared, prune_gate, assert_replicas_caught_up}

abbrev pub extend : ℕ → List Codes → List Codes
extend c [] = (c ∷ []) ∷ []
extend c (l ∷ ls) = (c ∷ l) ∷ ls

-- The lines of a text.
unfoldable pub split_lines : Codes → List Codes
split_lines [] = [] ∷ []
split_lines (c ∷ cs) = let ls = split_lines cs in if c == 10 then [] ∷ ls else extend c ls

unfoldable pub has_prefix : Codes → Codes → Bool
has_prefix [] cs = true
has_prefix (p ∷ ps) [] = false
has_prefix (p ∷ ps) (c ∷ cs) = (p == c) && has_prefix ps cs

unfoldable pub contains_codes : Codes → Codes → Bool
contains_codes sub [] = is_empty sub
contains_codes sub (c ∷ cs) = has_prefix sub (c ∷ cs) || contains_codes sub cs

-- The last field of a line, with the one that is being read.
unfoldable pub last_field_from : Codes → Codes → Codes → Codes
last_field_from last word [] = if is_empty word then last else word
last_field_from last word (c ∷ cs) =
    if is_space c
    then last_field_from (if is_empty word then last else word) [] cs
    else last_field_from last (word ++ (c ∷ [])) cs

unfoldable pub last_field : Codes → Codes
last_field line = last_field_from [] [] line

abbrev pub read_row : Codes → Codes × Codes → Codes × Codes
read_row line (wal, lsn) =
    if contains_codes (codes "REDO WAL file") line
    then (last_field line, lsn)
    else if contains_codes (codes "REDO location") line
    then (wal, last_field line)
    else (wal, lsn)

unfoldable pub read_rows : List Codes → Codes × Codes → Codes × Codes
read_rows [] found = found
read_rows (line ∷ lines) found = read_rows lines (read_row line found)

abbrev pub both_named : Codes × Codes → Option (Codes × Codes)
both_named (wal, lsn) = if is_empty wal || is_empty lsn then none else some (wal, lsn)

-- `output` is that of `pg_controldata`; none if the command fails.
abbrev pub read_checkpoint_boundary : Option Codes → Option (Codes × Codes)
read_checkpoint_boundary none = none
read_checkpoint_boundary (some output) = both_named (read_rows (split_lines output) ([], []))

-- What follows the last slash, or all.
unfoldable pub base_from : Codes → Codes → Codes
base_from best [] = best
base_from best (c ∷ cs) = if c == 47 then base_from cs cs else base_from best cs

unfoldable pub base_of : Codes → Codes
base_of path = base_from path path

unfoldable pub listed_paths : Codes → List Codes
listed_paths output =
    select (λ p. not (is_empty p)) (map trim_space (split_lines (trim_space output)))

-- The paths to delete, of a listing.
unfoldable pub older_than : Codes → Codes → List Codes
older_than redo_wal output = select (λ p. codes_ltb (base_of p) redo_wal) (listed_paths output)

abbrev pub same_codes : Codes → Codes → Bool
same_codes a b = not (codes_ltb a b) && not (codes_ltb b a)

unfoldable pub has_suffix : Codes → Codes → Bool
has_suffix suffix [] = is_empty suffix
has_suffix suffix (c ∷ cs) = same_codes suffix (c ∷ cs) || has_suffix suffix cs

-- The files that the last `find` deletes, whatever their name before the suffix.
abbrev pub is_bookkeeping : Codes → Bool
is_bookkeeping path = has_suffix (codes ".partial") path || has_suffix (codes ".backup") path

-- The paths in the `rm` that is run and in the `find` that deletes, and whether the prune returns no error.
pub record Pruning : Type 0 where
  pub removed : List Codes
  pub succeeded : Bool

abbrev pub prune_failed : Pruning
prune_failed = record { removed = []; succeeded = false }

-- The sweep of the stale bookkeeping comes after a `rm` without an error, and its result is ignored.
abbrev pub sweep_after : Bool → List Codes → List Codes → Bool → Pruning
sweep_after false doomed directory sweep_ok = record { removed = doomed; succeeded = false }
sweep_after true doomed directory sweep_ok = record {
  removed = doomed ++ (if sweep_ok then select is_bookkeeping directory else []);
  succeeded = true;
}

-- `directory` holds the paths of all regular files beside the segments.
abbrev pub delete_wal_older_than : Codes → Option Codes → Bool → List Codes → Bool → Pruning
delete_wal_older_than redo_wal none rm_ok directory sweep_ok = prune_failed
delete_wal_older_than redo_wal (some output) rm_ok directory sweep_ok =
    let doomed = older_than redo_wal output in
    sweep_after (is_empty doomed || rm_ok) doomed directory sweep_ok

-- What the helper pod and the replicas answer.
pub record Answers : Type 0 where
  pub controldata : Option Codes
  pub replay_of : String → Option Codes
  pub listing : Option Codes
  pub rm_ok : Bool
  pub directory : List Codes
  pub sweep_ok : Bool

abbrev pub if_caught_up : Bool → Pruning → Pruning
if_caught_up true rest = rest
if_caught_up false rest = prune_failed

abbrev pub prune_from : Answers → Cleared → Bool → Option (Codes × Codes) → Pruning
prune_from e c force none = prune_failed
prune_from e c force (some (redo_wal, redo_lsn)) =
    if_caught_up
      (not c.verify_replicas
        || assert_replicas_caught_up e.replay_of force c.ready_replicas redo_lsn)
      (delete_wal_older_than redo_wal e.listing e.rm_ok e.directory e.sweep_ok)

unfoldable pub prune_wal_on_pvc : Answers → Cleared → Bool → Pruning
prune_wal_on_pvc e c force = prune_from e c force (read_checkpoint_boundary e.controldata)

-- `PruneWAL` after its gates, without deadlock-recover; a dry run stops before the helper pod.
abbrev pub prune_cleared : Answers → Bool → Bool → Option Cleared → Pruning
prune_cleared e dry_run force none = prune_failed
prune_cleared e dry_run force (some c) =
    if dry_run then record { removed = []; succeeded = true } else prune_wal_on_pvc e c force

unfoldable pub prune_wal :
    Answers
    → TriageResult
    → ℕ
    → InstanceAssessment
    → (primary target : String) → (dry_run force : Bool) → Pruning
prune_wal e r ready_count a primary target dry_run force =
    prune_cleared e dry_run force (prune_gate r ready_count a primary target force false)
