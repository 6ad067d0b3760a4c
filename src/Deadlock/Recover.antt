-- ===== src/Deadlock/Recover.antt =====
-- `deadlockRecover`, `deadlockRecoverOnPVC`, `escrowSnapshot` and `waitClusterSettled` of
-- src/engine/prunewal/deadlock.go, over the answers of the cluster. Log lines are left out.
use hasteward.Prelude.{
  ℕ, zero, suc, ◌-◌, ◌^◌, leb, ◌==◌, ℤ, pos, codes, String, Bool, true, false, ◌&&◌, ◌||◌, not,
  Option, none, some, List, [], ◌∷◌, ◌++◌, if◌then◌else◌, str_eq,
}
use hasteward.Triage.{is_empty}
use hasteward.CnpgJob.{Job, Api, Failure, Cluster, run, unfence, Outcome}
use hasteward.Escrow.{EscrowRef}
use hasteward.PruneWal.{Codes, contains_codes}
use hasteward.Deadlock.Reading.{
  ControlState, parse_control_state, parse_redo_done, InstancePos, InstancePod,
  read_replica_positions, safe_to_release_recovered_primary,
}

-- What the helper does on the volume, in order.
pub data PvcStep : Type 0 where
  wal_relocated wal_replayed : PvcStep
  wal_trimmed : (redo_wal : Codes) → PvcStep
  wal_restored : PvcStep

pub data PvcFailure : Type 0 where
  relocate_failed replay_failed replay_panicked control_failed not_shut_down no_redo_wal trim_failed
        restore_failed :
      PvcFailure

-- The answers of the helper: `replay` is the output and the errors of the single-user run.
pub record Helper : Type 0 where
  pub relocate : Bool
  pub replay : Option Codes
  pub control_data : Option Codes
  pub archive_cleanup : Bool
  pub move_back : Bool

pub record PvcEnd : Type 0 where
  pub reached : Option PvcFailure
  pub at_timeline : ℤ
  pub at_lsn : ℕ
  pub steps : List PvcStep

abbrev pub pvc_failed : PvcFailure → List PvcStep → PvcEnd
pvc_failed f steps = record { reached = some f; at_timeline = pos 0; at_lsn = 0; steps = steps }

abbrev pub max_lsn : ℕ
max_lsn = 2 ^ 64 - 1

abbrev pub authority_lsn : Option ℕ → ℕ
authority_lsn none = max_lsn
authority_lsn (some lsn) = lsn

abbrev pub panicked : Codes → Bool
panicked output = contains_codes (codes "PANIC") output || contains_codes (codes "FATAL") output

unfoldable pub codes_eq : Codes → Codes → Bool
codes_eq [] [] = true
codes_eq [] (d ∷ ds) = false
codes_eq (c ∷ cs) [] = false
codes_eq (c ∷ cs) (d ∷ ds) = (c == d) && codes_eq cs ds

abbrev pub so_far : List PvcStep
so_far = wal_relocated ∷ wal_replayed ∷ []

module _ (h : Helper) where
  abbrev pub restore_wal : ControlState → ℕ → Bool → PvcEnd
  restore_wal cs lsn false = pvc_failed trim_failed (so_far ++ wal_trimmed cs.redo_wal ∷ [])
  restore_wal cs lsn true =
      let steps = so_far ++ wal_trimmed cs.redo_wal ∷ wal_restored ∷ [] in
      if h.move_back
      then record { reached = none; at_timeline = cs.timeline; at_lsn = lsn; steps = steps }
      else pvc_failed restore_failed steps

  abbrev pub trim_wal : ControlState → ℕ → PvcEnd
  trim_wal cs lsn =
      if not (codes_eq cs.state (codes "shut down"))
      then pvc_failed not_shut_down so_far
      else if is_empty cs.redo_wal
      then pvc_failed no_redo_wal so_far
      else restore_wal cs lsn h.archive_cleanup

  abbrev pub read_control : Option Codes → ℕ → PvcEnd
  read_control none lsn = pvc_failed control_failed so_far
  read_control (some out) lsn = trim_wal (parse_control_state out) lsn

  abbrev pub after_replay : Option Codes → PvcEnd
  after_replay none = pvc_failed replay_failed so_far
  after_replay (some output) =
      if panicked output
      then pvc_failed replay_panicked so_far
      else read_control h.control_data (authority_lsn (parse_redo_done output))

  unfoldable pub deadlock_recover_on_pvc : PvcEnd
  deadlock_recover_on_pvc =
      if h.relocate then after_replay h.replay else pvc_failed relocate_failed (wal_relocated ∷ [])

-- One poll of the cluster: none if the read fails.
pub record ClusterStatus : Type 0 where
  pub current_primary : String
  pub target_primary : String
  pub ready_instances : ℕ
  pub primary_is_ready : Bool

abbrev pub settled_primary : ℕ → Option ClusterStatus → Option String
settled_primary instances none = none
settled_primary instances (some s) =
    if not (str_eq s.current_primary "")
      && str_eq s.current_primary s.target_primary
      && leb instances s.ready_instances
      && s.primary_is_ready
    then some s.current_primary
    else none

abbrev pub first_settled : Option String → Option String → Option String
first_settled none later = later
first_settled (some primary) later = some primary

-- With the attempts that are left.
unfoldable pub wait_cluster_settled : ℕ → (ℕ → Option ClusterStatus) → ℕ → ℕ → Option String
wait_cluster_settled instances poll zero i = none
wait_cluster_settled instances poll (suc left) i =
    first_settled (settled_primary instances (poll i))
      (wait_cluster_settled instances poll left (suc i))

-- A recovery that was let in by the gates.
pub record Rescue : Type 0 where
  pub target_pod : String
  pub delete_timeout : ℕ
  pub is_primary : Bool
  pub dry_run : Bool
  pub no_escrow : Bool
  -- What the gate of the escrow returns for the volume; none is an error.
  pub escrow_gate : Option (List EscrowRef)
  pub image_known : Bool
  pub scratch_known : Bool
  pub helper : Helper
  pub replica_pods : Option (List InstancePod)
  pub api : Api
  pub release_read : Bool
  pub release_patch : Outcome
  pub instances : ℕ
  pub poll : ℕ → Option ClusterStatus

pub data RescueEnd : Type 0 where
  only_described not_escrowed image_unknown scratch_unknown kept_fenced release_failed : RescueEnd
  job_failed : Failure → RescueEnd
  -- With the primary that leads once the cluster has settled.
  released_to_operator : Option String → RescueEnd

abbrev pub escrow_snapshot : Option (List EscrowRef) → Option EscrowRef
escrow_snapshot none = none
escrow_snapshot (some []) = none
escrow_snapshot (some (ref ∷ refs)) = some ref

abbrev pub has_succeeded : Option PvcFailure → Bool
has_succeeded none = true
has_succeeded (some f) = false

module _ (d : Rescue) where
  abbrev pub rescue_job : Job
  rescue_job = record {
    target_pod = d.target_pod;
    delete_timeout = d.delete_timeout;
    complete_timeout = 0;
    go_driven = true;
    keep_fenced = true;
  }

  -- The job works as the helper does.
  abbrev pub rescue_api : Api
  rescue_api = record d.api { work = has_succeeded (deadlock_recover_on_pvc d.helper).reached }

  abbrev pub recovered : InstancePos
  recovered = record {
    pod = d.target_pod;
    timeline = (deadlock_recover_on_pvc d.helper).at_timeline;
    lsn = (deadlock_recover_on_pvc d.helper).at_lsn;
  }

  abbrev pub release : Bool × Cluster → RescueEnd × Cluster
  release (false, c) = (release_failed, c)
  release (true, c) = (released_to_operator (wait_cluster_settled d.instances d.poll 18 0), c)

  abbrev pub judge : Bool → Bool → Cluster → RescueEnd × Cluster
  judge false safe c = (kept_fenced, c)
  judge true false c = (kept_fenced, c)
  judge true true c = release (unfence d.release_read d.release_patch d.target_pod c)

  abbrev pub after_job : Option Failure × Cluster → RescueEnd × Cluster
  after_job (some f, c) = (job_failed f, c)
  after_job (none, c) =
      judge d.is_primary
        (safe_to_release_recovered_primary recovered
          (read_replica_positions d.target_pod d.replica_pods))
        c

  abbrev pub replay_in_place : Bool → Bool → Cluster → RescueEnd × Cluster
  replay_in_place false scratch c = (image_unknown, c)
  replay_in_place true false c = (scratch_unknown, c)
  replay_in_place true true c = after_job (run rescue_job rescue_api c)

  abbrev pub after_snapshot : Option EscrowRef → Cluster → RescueEnd × Cluster
  after_snapshot none c = (not_escrowed, c)
  after_snapshot (some ref) c = replay_in_place d.image_known d.scratch_known c

  abbrev pub escrow_first : Bool → Cluster → RescueEnd × Cluster
  escrow_first true c = replay_in_place d.image_known d.scratch_known c
  escrow_first false c = after_snapshot (escrow_snapshot d.escrow_gate) c

  abbrev pub unless_dry_run : Bool → Cluster → RescueEnd × Cluster
  unless_dry_run true c = (only_described, c)
  unless_dry_run false c = escrow_first d.no_escrow c

  unfoldable pub deadlock_recover : Cluster → RescueEnd × Cluster
  deadlock_recover c = unless_dry_run d.dry_run c
