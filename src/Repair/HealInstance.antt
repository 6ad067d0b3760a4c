-- ===== src/Repair/HealInstance.antt =====
-- `Heal`, `healInstance` and `restartInstance` of src/engine/repair/cnpg.go. The helper's script is the
-- work of the offline PVC job; the strip of a connection setting before a restart is left out, as
-- nothing reads whether it succeeded.
use hasteward.Prelude.{
  ℕ, zero, suc, String, Bool, true, false, Option, none, some, if◌then◌else◌, str_eq,
}
use hasteward.CnpgJob.{Job, Api, Failure, Cluster, run}

-- The answer to a deletion; a pod that is not there is no error.
pub data Deletion : Type 0 where
  deleted pod_absent deletion_failed : Deletion

pub record InstanceCalls : Type 0 where
  pub target : String
  pub dry_run : Bool
  -- The current primary of the cluster as it is read now, "" if unset; none if the read fails.
  pub primary_read : Option String
  -- The address of the primary's pod, and the one that the assessment captured.
  pub live_ip : Option String
  pub captured_ip : String
  pub delete_timeout : ℕ
  pub heal_timeout : ℕ
  pub api : Api
  pub replica_ready : ℕ → Bool
  pub delete_pod : Deletion

pub data InstanceEnd : Type 0 where
  primary_unverified targets_primary never_ready rejoined : InstanceEnd
  rebuild_failed : Failure → InstanceEnd
  restart_failed restarted restart_planned : InstanceEnd

-- The polls that are left.
unfoldable pub wait_replica : (ℕ → Bool) → ℕ → ℕ → Bool
wait_replica ready zero i = false
wait_replica ready (suc left) i =
    let later = wait_replica ready left (suc i) in if ready i then true else later

module _ (c : InstanceCalls) where
  abbrev pub rebuild_job : Job
  rebuild_job = record {
    target_pod = c.target;
    delete_timeout = c.delete_timeout;
    complete_timeout = c.heal_timeout;
    go_driven = false;
    keep_fenced = false;
  }

  -- Where the base backup is taken from.
  abbrev pub backup_source : String → String
  backup_source primary = if str_eq primary "" then c.captured_ip else elim c.live_ip [
    | none ↦ c.captured_ip
    | some ip ↦ (if str_eq ip "" then c.captured_ip else ip)
  ]

  abbrev pub after_rebuild : Option Failure × Cluster → InstanceEnd × Cluster
  after_rebuild (some f, s) = (rebuild_failed f, s)
  after_rebuild (none, s) = (if wait_replica c.replica_ready 30 0 then rejoined else never_ready, s)

  abbrev pub unless_primary : Bool → Cluster → InstanceEnd × Cluster
  unless_primary true s = (targets_primary, s)
  unless_primary false s = after_rebuild (run rebuild_job c.api s)

  abbrev pub guard_primary : Option String → Cluster → InstanceEnd × Cluster
  guard_primary none s = (primary_unverified, s)
  guard_primary (some primary) s = unless_primary (str_eq c.target primary) s

  unfoldable pub heal_instance : Cluster → InstanceEnd × Cluster
  heal_instance s = guard_primary c.primary_read s

  abbrev pub restart_by : Deletion → InstanceEnd
  restart_by deleted = restarted
  restart_by pod_absent = restarted
  restart_by deletion_failed = restart_failed

  unfoldable pub restart_instance : InstanceEnd
  restart_instance = if c.dry_run then restart_planned else restart_by c.delete_pod

  unfoldable pub heal_cnpg : String → Cluster → InstanceEnd × Cluster
  heal_cnpg remediation s =
      if str_eq remediation "restart" then (restart_instance, s) else heal_instance s
