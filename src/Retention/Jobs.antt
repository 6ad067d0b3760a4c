-- ===== src/Retention/Jobs.antt =====
-- src/restic/forget.go: the retention of the snapshots that one repair job took together. A snapshot's
-- `job` tag is "" if it has none; `day`, `week` and `month` are the labels that Go's time package
-- gives to an instant.
use hasteward.Prelude.{
  ℕ, zero, suc, ◌+◌, ltb, ◌==◌, length, select, any, String, Bool, true, false, ◌&&◌, ◌||◌, not,
  List, [], ◌∷◌, ◌++◌, if◌then◌else◌, str_eq,
}
use Prim.Native.String.{◌++◌ as str_append}

pub record Snapshot : Type 0 where
  pub id : String
  pub short_id : String
  pub time : ℕ
  pub job : String

pub record JobGroup : Type 0 where
  pub job_id : String
  pub time : ℕ
  pub snapshots : List Snapshot

pub record RetentionPolicy : Type 0 where
  pub keep_last : ℕ
  pub keep_daily : ℕ
  pub keep_weekly : ℕ
  pub keep_monthly : ℕ

unfoldable pub job_of : Snapshot → String
job_of s = if str_eq s.job "" then str_append "ungrouped-" s.short_id else s.job

-- A group keeps the time of its first snapshot.
unfoldable pub add_to_job : Snapshot → List JobGroup → List JobGroup
add_to_job s [] = record { job_id = job_of s; time = s.time; snapshots = s ∷ [] } ∷ []
add_to_job s (g ∷ gs) =
    if str_eq g.job_id (job_of s)
    then record { job_id = g.job_id; time = g.time; snapshots = g.snapshots ++ (s ∷ []) } ∷ gs
    else g ∷ add_to_job s gs

unfoldable pub fold_jobs : List Snapshot → List JobGroup → List JobGroup
fold_jobs [] gs = gs
fold_jobs (s ∷ ss) gs = fold_jobs ss (add_to_job s gs)

unfoldable pub insert_job : JobGroup → List JobGroup → List JobGroup
insert_job g [] = g ∷ []
insert_job g (h ∷ hs) = if ltb g.time h.time then h ∷ insert_job g hs else g ∷ h ∷ hs

unfoldable pub newest_jobs_first : List JobGroup → List JobGroup
newest_jobs_first [] = []
newest_jobs_first (g ∷ gs) = insert_job g (newest_jobs_first gs)

unfoldable pub group_by_job : List Snapshot → List JobGroup
group_by_job snapshots = newest_jobs_first (fold_jobs snapshots [])

unfoldable pub keep_first : ℕ → List JobGroup → List String
keep_first n [] = []
keep_first zero (g ∷ gs) = []
keep_first (suc n) (g ∷ gs) = g.job_id ∷ keep_first n gs

-- One job for each of the first `left` windows; a window starts where the label changes.
unfoldable pub keep_windows : (ℕ → String) → ℕ → String → List JobGroup → List String
keep_windows label left last [] = []
keep_windows label left last (g ∷ gs) =
    if str_eq (label g.time) last
    then keep_windows label left last gs
    else elim left [ zero ↦ [] | suc n ↦ g.job_id ∷ keep_windows label n (label g.time) gs ]

abbrev pub keeps_all : RetentionPolicy → Bool
keeps_all p = p.keep_last == 0 && p.keep_daily == 0 && p.keep_weekly == 0 && p.keep_monthly == 0

module _ (day week month : ℕ → String) where
  unfoldable pub keep_set : RetentionPolicy → List JobGroup → List String
  keep_set p groups =
      keep_first p.keep_last groups
      ++ (keep_windows day p.keep_daily "" groups
          ++ (keep_windows week p.keep_weekly "" groups
              ++ keep_windows month p.keep_monthly "" groups))

  unfoldable pub apply_group_retention :
      List JobGroup → RetentionPolicy → List JobGroup × List JobGroup
  apply_group_retention groups p =
      let kept = keep_set p groups in
      if keeps_all p then (groups, []) else (
        select (λ g. any (str_eq g.job_id) kept) groups,
        select (λ g. not (any (str_eq g.job_id) kept)) groups,
      )

abbrev pub count_snapshots : List JobGroup → ℕ
count_snapshots [] = 0
count_snapshots (g ∷ gs) = length g.snapshots + count_snapshots gs

-- `forget_ok` is the outcome of `restic forget` on a snapshot.
module _ (forget_ok : String → Bool) where
  abbrev pub forget_then : Bool → String → List String × Bool → List String × Bool
  forget_then true id rest = (id ∷ rest.0, rest.1)
  forget_then false id rest = ([], false)

  -- The snapshots that were forgotten, and whether all were.
  unfoldable pub forget_each : List Snapshot → List String × Bool
  forget_each [] = ([], true)
  forget_each (s ∷ ss) = forget_then (forget_ok s.id) s.id (forget_each ss)

abbrev pub snapshots_of : List JobGroup → List Snapshot
snapshots_of [] = []
snapshots_of (g ∷ gs) = g.snapshots ++ snapshots_of gs

pub record Forgotten : Type 0 where
  pub keep_count : ℕ
  pub removed : List String
  -- Nothing failed; `pruned` says that the repository was pruned.
  pub succeeded : Bool
  pub pruned : Bool

abbrev pub then_prune : Bool → Bool → ℕ → List String × Bool → Forgotten
then_prune prune prune_ok keep_count (removed, false) = record {
  keep_count = keep_count;
  removed = removed;
  succeeded = false;
  pruned = false;
}
then_prune prune prune_ok keep_count (removed, true) =
    let due = prune && ltb 0 (length removed) in
    record {
      keep_count = keep_count;
      removed = removed;
      succeeded = not due || prune_ok;
      pruned = due && prune_ok;
    }

module _ (day week month : ℕ → String) (forget_ok : String → Bool) where
  unfoldable pub forget_grouped : List Snapshot → RetentionPolicy → Bool → Bool → Forgotten
  forget_grouped snapshots p prune prune_ok =
      let split = apply_group_retention day week month (group_by_job snapshots) p in
      then_prune prune prune_ok (count_snapshots split.0)
        (forget_each forget_ok (snapshots_of split.1))
