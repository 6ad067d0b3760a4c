-- ===== src/Tests/NodeRuns.antt =====
-- The heal of the last of three Galera nodes, whose volume takes a second attempt to attach.
use hasteward.Prelude.{
  ℕ, zero, suc, codes, String, Bool, true, false, Option, none, some, [], ◌∷◌, ◌≡◌, refl,
}
use hasteward.CnpgJob.{
  Outcome, accepted, refused, Cluster, running, succeeded, Api, fence, unfence,
  set_reconciliation_loop, acquire, await_completion, do_work, cleanup, hand_back, finish,
  after_work, after_acquire, handoff, disable_and_handoff, restore_attempts, restore_reconciliation,
  run,
}
use hasteward.PruneWal.{Codes, has_prefix, contains_codes}
use hasteward.Repair.{
  storage_written, config_removed, NodeCalls, run_helper_with_retry, wait_ready, heal_node,
  DonorProbe, InstanceCalls, pod_absent, rejoined, wait_replica, heal_instance, heal_cnpg,
}
use hasteward.Repair.Reseeding.{IsReseeded, fresh, heal_node-IsReseeded}
use hasteward.Repair.Rejoining.{IsRejoined, heal_cnpg-IsRejoined}

abbrev attach_late : ℕ → Option Codes
attach_late zero = none
attach_late (suc zero) = some (codes "FailedMount: slow")
attach_late (suc (suc i)) = none

abbrev synced : DonorProbe
synced = record {
  pod_exists = true;
  pod_running = true;
  exec_ok = true;
  wsrep_ready = some true;
  wsrep_connected = some true;
  state_comment = "Synced";
}

abbrev node_calls : Outcome → Bool → NodeCalls
node_calls scale_up rescue_resume = record {
  target_pod = "db-2";
  instance_num = 2;
  original = 3;
  has_galera_pvc = true;
  donor = some synced;
  pods = none;
  suspend_cr = accepted;
  scale_down = accepted;
  target_gone = true;
  storage_helper = attach_late;
  galera_helper = λ i. none;
  storage_helper_gone = true;
  galera_helper_gone = true;
  scale_up = scale_up;
  resume_cr = accepted;
  rescue_scale = true;
  rescue_resume = rescue_resume;
  heal_rounds = 2;
  pod_ready = λ i. true;
}

node_is_healed :
    (heal_node (node_calls accepted true) (fresh (node_calls accepted true) true)).healed ≡ true
unfolding heal_node run_helper_with_retry wait_ready has_prefix contains_codes
node_is_healed = refl

-- A rescue that can not resume forgets that the resource is suspended.
stays_suspended :
    (heal_node (node_calls refused false) (fresh (node_calls refused false) true)).reached
    ≡ record {
      cr_suspended = true;
      replicas = 3;
      marked_suspended = false;
      steps = storage_written ∷ config_removed ∷ [];
    }
unfolding heal_node run_helper_with_retry wait_ready has_prefix contains_codes
stays_suspended = refl

heal_node-IsReseeded_example :
    IsReseeded
      (node_calls refused true)
      (fresh (node_calls refused true) true)
      (heal_node (node_calls refused true) (fresh (node_calls refused true) true))
heal_node-IsReseeded_example = heal_node-IsReseeded (node_calls refused true) true

abbrev good : Api
good = record {
  fence_read = true;
  fence_patch = accepted;
  disable = accepted;
  create_helper = accepted;
  acquire_phase = λ i. running;
  delete_target = λ i. accepted;
  work = true;
  complete_phase = λ i. succeeded;
  delete_helper = accepted;
  enable = accepted;
  unfence_read = true;
  unfence_patch = accepted;
  restore = λ i. accepted;
}

abbrev replica_calls : Option String → InstanceCalls
replica_calls primary = record {
  target = "pg-2";
  dry_run = false;
  primary_read = primary;
  live_ip = none;
  captured_ip = "10.0.0.1";
  delete_timeout = 2;
  heal_timeout = 10;
  api = good;
  replica_ready = λ i. true;
  delete_pod = pod_absent;
}

abbrev idle_cluster : Cluster
idle_cluster = record { fenced = []; reconcile_off = false; log = [] }

-- A cluster whose current primary is not set does not stop a rebuild.
unset_primary : (heal_cnpg (replica_calls (some "")) "reseed" idle_cluster).0 ≡ rejoined
unfolding heal_cnpg heal_instance wait_replica fence unfence set_reconciliation_loop acquire
    await_completion do_work cleanup hand_back finish after_work after_acquire handoff
    disable_and_handoff restore_attempts restore_reconciliation run
unset_primary = refl

heal_cnpg-IsRejoined_example :
    IsRejoined
      (replica_calls (some "pg-1"))
      idle_cluster
      (heal_cnpg (replica_calls (some "pg-1")) "reseed" idle_cluster)
heal_cnpg-IsRejoined_example =
    heal_cnpg-IsRejoined (replica_calls (some "pg-1")) "reseed" idle_cluster
