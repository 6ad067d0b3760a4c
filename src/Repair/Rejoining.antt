-- ===== src/Repair/Rejoining.antt =====
-- Which CNPG instance is rebuilt, and how the rebuild ends (`Heal` of src/engine/repair/cnpg.go).
use hasteward.Prelude.{
  String, Bool, true, false, Option, none, some, if◌then◌else◌, ◌≡◌, ◌≢◌, refl, sym, ap, ◌∙◌, ◌⊎◌,
  inl, inr, Bool-cases, arith, str_eq, eq_iff,
}
use hasteward.CnpgJob.{Failure, fence_failed, unfence_failed, Cluster, is_fenced, run}
use hasteward.CnpgJob.Fencing.{run-fenced, failed_fence}
use hasteward.Repair.HealInstance.{
  InstanceCalls, InstanceEnd, Deletion, deleted, pod_absent, deletion_failed, primary_unverified,
  targets_primary, never_ready, rejoined, rebuild_failed, restart_failed, restarted,
  restart_planned, wait_replica, rebuild_job, after_rebuild, unless_primary, guard_primary,
  heal_instance, restart_by, restart_instance, heal_cnpg,
}

module _ (c : InstanceCalls) where
  -- The target is not the current primary, as it is read at the heal.
  abbrev pub IsOfReplica : Type 0
  IsOfReplica = (p : String) × ((c.primary_read ≡ some p) × (c.target ≢ p))

  abbrev pub IsRejoined : Cluster → InstanceEnd × Cluster → Type 0
  IsRejoined s (primary_unverified, e) = (e ≡ s) × (c.primary_read ≡ none)
  IsRejoined s (targets_primary, e) = (e ≡ s) × (c.primary_read ≡ some c.target)
  IsRejoined s (restart_failed, e) = (e ≡ s) × (c.delete_pod ≡ deletion_failed)
  IsRejoined s (restarted, e) = (e ≡ s) × (c.dry_run ≡ false)
  IsRejoined s (restart_planned, e) = (e ≡ s) × (c.dry_run ≡ true)
  IsRejoined s (rebuild_failed f, e) =
      IsOfReplica × ((f ≡ fence_failed) ⊎ ((f ≡ unfence_failed) ⊎ (is_fenced c.target e ≡ true)))
  IsRejoined s (never_ready, e) = IsOfReplica × (is_fenced c.target e ≡ false)
  IsRejoined s (rejoined, e) =
      IsOfReplica × ((is_fenced c.target e ≡ false) × (wait_replica c.replica_ready 30 0 ≡ true))

  after_rebuild-IsRejoined :
      (s : Cluster) (r : Option Failure × Cluster)
      → IsOfReplica
      → (r.0 ≡ none → is_fenced c.target r.1 ≡ false)
      → ((f : Failure)
          → r.0 ≡ some f
          → f ≢ fence_failed
          → f ≢ unfence_failed
          → is_fenced c.target r.1 ≡ true)
      → IsRejoined s (after_rebuild c r)
  after_rebuild-IsRejoined s (some f, e) rep gone kept = (rep, failed_fence f (kept f refl))
  after_rebuild-IsRejoined s (none, e) rep gone kept = go (wait_replica c.replica_ready 30 0) refl
    where
      go :
          (b : Bool)
          → wait_replica c.replica_ready 30 0 ≡ b
          → IsRejoined s (if b then rejoined else never_ready, e)
      go true q = (rep, (gone refl, q))
      go false q = (rep, gone refl)

  guard_primary-IsRejoined :
      (s : Cluster) (o : Option String) → c.primary_read ≡ o → IsRejoined s (guard_primary c o s)
  guard_primary-IsRejoined s none e = (refl, e)
  guard_primary-IsRejoined s (some p) e = go (str_eq c.target p) refl
    where
      go : (b : Bool) → str_eq c.target p ≡ b → IsRejoined s (unless_primary c b s)
      go true q = (refl, e ∙ ap some (sym ((eq_iff c.target p).0 q)))
      go false q =
          let fences = run-fenced (rebuild_job c) c.api s in
          after_rebuild-IsRejoined s (run (rebuild_job c) c.api s)
            (p, (e, λ same. absurd (ground (arith, (eq_iff c.target p).1 same)))) fences.0 fences.1

  restart_instance-IsRejoined : (s : Cluster) → IsRejoined s (restart_instance c, s)
  unfolding restart_instance
  restart_instance-IsRejoined s = go c.dry_run c.delete_pod refl refl
    where
      go :
          (dry : Bool) (d : Deletion)
          → c.dry_run ≡ dry
          → c.delete_pod ≡ d
          → IsRejoined s (if dry then restart_planned else restart_by c d, s)
      go true d e q = (refl, e)
      go false deleted e q = (refl, e)
      go false pod_absent e q = (refl, e)
      go false deletion_failed e q = (refl, q)

  -- A rebuild goes ahead only for an instance that is not the current primary, as it is read at the
  -- time: an unset primary reads as the empty name, which no instance has; a refusal and a restart leave the annotations of the cluster as they were. A rebuild that
  -- fails leaves the instance fenced, unless what failed is the fence or its removal. One whose job
  -- succeeds leaves it without a fence, and reports success only if a poll saw the replica ready.
  pub heal_cnpg-IsRejoined :
      (remediation : String) (s : Cluster) → IsRejoined s (heal_cnpg c remediation s)
  unfolding heal_cnpg heal_instance
  heal_cnpg-IsRejoined remediation s = elim (Bool-cases (str_eq remediation "restart")) [
    | inl e ↦ rw e (restart_instance-IsRejoined s)
    | inr e ↦ rw e (guard_primary-IsRejoined s c.primary_read refl)
  ]
