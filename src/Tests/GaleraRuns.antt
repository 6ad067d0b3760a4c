-- ===== src/Tests/GaleraRuns.antt =====
-- A Galera cluster whose third node is down on the lineage of a live quorum, and one that is all dead.
use hasteward.Prelude.{
  ℤ, pos, negsuc, String, true, false, Option, some, [], ◌∷◌, ◌≡◌, refl, ◌⊎◌, All,
}
use hasteward.CnpgJob.{accepted}
use hasteward.GaleraTriage.{
  derive_effective_seqno, node_canonical_uuid, nodes, primary_best, galera_instance_comparison,
  split_brain, uuid_set, add_uuids, add_uuid, non_primary, best_primary_seqno, ahead_of,
  quorum_uuid, unread_blocking, recoverable_nodes, clean_quorum, grastate_uuid_for,
  build_assessments, FenceCalls, lock_taken, cr_suspended, recovery_pods_deleted, scaled,
  pods_terminated, recover_run, cr_resumed, lock_cleared, recover_each, after_scale_down,
  after_suspend, after_fence_lock, deep_recover, any_serving, is_anything_alive, maybe_deep_recover,
}
use hasteward.GaleraTriage.Data.{
  Grastate, WsrepReading, EffectiveSeqno, WsrepRecoverResult, GaleraTriageData,
}
use hasteward.GaleraTriage.Position.{Proven, derive_effective_seqno-Proven}
use hasteward.GaleraTriage.Quorum.{IsHealable, galera_instance_comparison-IsHealable}
use hasteward.GaleraTriage.Healing.{IsJustified, build_assessments-IsJustified}
use hasteward.GaleraTriage.Fence.{up, IsGuarded, Restores, maybe_deep_recover-IsGuarded}
use hasteward.Triage.{new_authority_comparison}

-- The hint is larger than each reading.
derive_effective_seqno-Proven_example :
    Proven
      (negsuc 0 ∷ pos 10 ∷ pos 7 ∷ [])
      (derive_effective_seqno (pos 10) (pos 99) (negsuc 0) (pos 7) (pos 50) (negsuc 0))
derive_effective_seqno-Proven_example =
    derive_effective_seqno-Proven (pos 10) (pos 99) (negsuc 0) (pos 7) (pos 50) (negsuc 0)

abbrev live : ℤ → WsrepReading
live n = record {
  local_state = pos 4;
  cluster_status = "Primary";
  connected = "ON";
  ready = "ON";
  cluster_state_uuid = "b86f";
  last_committed = n;
  unread = false;
}

abbrev state_of : String → String → Grastate
state_of pod uuid = record { pod = pod; source = "exec"; uuid = uuid; seqno = negsuc 0 }

abbrev at : ℤ → EffectiveSeqno
at n = record { value = n; source = "wsrep_last_committed"; known = true }

abbrev blind : EffectiveSeqno
blind = record { value = negsuc 0; source = "none"; known = false }

abbrev cluster : GaleraTriageData
cluster = record {
  running_pods =
      record { name = "c-0"; mariadb_ready = true }
      ∷ record { name = "c-1"; mariadb_ready = true }
      ∷ [];
  missing_nodes = "c-2" ∷ [];
  crashloop_pods = [];
  grastate_data = state_of "c-0" "0000" ∷ state_of "c-1" "b86f" ∷ state_of "c-2" "b86f" ∷ [];
  wsrep_map = ("c-0", live (pos 20)) ∷ ("c-1", live (pos 21)) ∷ [];
  log_recovered = [];
  log_rec_uuid = ("c-2", "57a2") ∷ [];
  wsrep_recovered = [];
  effective_seqnos = ("c-0", at (pos 20)) ∷ ("c-1", at (pos 21)) ∷ ("c-2", blind) ∷ [];
  disk_usage = [];
  crash_reasons = [];
  primary_members = "c-0" ∷ "c-1" ∷ [];
  recovery_uuids = "57a2" ∷ [];
  best_seqno_node = "c-1";
}

recovers_laggard : recoverable_nodes cluster (clean_quorum cluster) ≡ "c-2" ∷ []
unfolding recoverable_nodes clean_quorum split_brain uuid_set nodes node_canonical_uuid
    grastate_uuid_for add_uuids add_uuid non_primary ahead_of primary_best best_primary_seqno
    quorum_uuid
recovers_laggard = refl

galera_instance_comparison-IsHealable_example : IsHealable cluster
unfolding galera_instance_comparison new_authority_comparison unread_blocking clean_quorum
    split_brain uuid_set nodes node_canonical_uuid grastate_uuid_for add_uuids add_uuid non_primary
    ahead_of primary_best best_primary_seqno quorum_uuid
galera_instance_comparison-IsHealable_example = galera_instance_comparison-IsHealable cluster refl

build_assessments-IsJustified_example : All (IsJustified cluster) (build_assessments cluster)
build_assessments-IsJustified_example = build_assessments-IsJustified cluster

abbrev dead : GaleraTriageData
dead = record cluster {
  running_pods = [];
  wsrep_map = [];
  effective_seqnos = [];
  primary_members = [];
}

abbrev position : String → Option WsrepRecoverResult
position pod =
    some (record { uuid = "b86f"; seqno = pos 20; last_committed = pos 20; valid = true })

abbrev calls : FenceCalls
calls = record {
  acquire = accepted;
  suspend = accepted;
  scale_down = accepted;
  wait_ok = true;
  run_wsrep_recover = position;
  scale_up_ok = true;
  resume_ok = true;
  clear_ok = true;
  replicas = 3;
  root_password_set = true;
  answers = λ pod. false;
}

fences :
    (maybe_deep_recover calls dead).0
    ≡ lock_taken
      ∷ cr_suspended
      ∷ recovery_pods_deleted
      ∷ scaled 0
      ∷ pods_terminated
      ∷ recover_run "c-0"
      ∷ recover_run "c-1"
      ∷ recover_run "c-2"
      ∷ recovery_pods_deleted
      ∷ scaled 3
      ∷ cr_resumed
      ∷ lock_cleared
      ∷ []
unfolding maybe_deep_recover deep_recover after_fence_lock after_suspend after_scale_down
    recover_each any_serving is_anything_alive
fences = refl

maybe_deep_recover-IsGuarded_example :
    IsGuarded (up calls.replicas) (maybe_deep_recover calls dead).0
    × (Restores calls (maybe_deep_recover calls dead).0
        × (((maybe_deep_recover calls dead).0 ≡ [])
            ⊎ ((is_anything_alive dead ≡ false) × (any_serving calls dead.running_pods ≡ false))))
maybe_deep_recover-IsGuarded_example = maybe_deep_recover-IsGuarded calls dead
