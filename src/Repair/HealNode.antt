-- ===== src/Repair/HealNode.antt =====
-- `healNode` and `runHelperWithRetry` of src/engine/repair/galera.go, over the outcomes of the calls: a
-- call may return an error although it took effect. The poll for the state Synced at the end only warns.
use hasteward.Prelude.{
  ℕ, zero, suc, ltb, codes, any, String, Bool, true, false, ◌&&◌, ◌||◌, not, Option, none, some,
  List, [], ◌∷◌, ◌++◌, if◌then◌else◌, str_eq,
}
use hasteward.CnpgJob.{Outcome, accepted, committed_unseen, refused}
use hasteward.PruneWal.{Codes, contains_codes}
use hasteward.Repair.Donor.{DonorProbe, is_true}

-- What the heal does on the volumes, in order: a helper may have written although it fails.
pub data NodeStep : Type 0 where
  storage_written config_removed : NodeStep

pub record HealState : Type 0 where
  pub cr_suspended : Bool
  pub replicas : ℕ
  -- `crSuspended`, which the cleanup of the run reads.
  pub marked_suspended : Bool
  pub steps : List NodeStep

pub record ClusterPod : Type 0 where
  pub name : String
  pub is_running : Bool

pub record NodeCalls : Type 0 where
  pub target_pod : String
  pub instance_num : ℕ
  pub original : ℕ
  pub has_galera_pvc : Bool
  -- The probe that the selection of a donor stored.
  pub donor : Option DonorProbe
  -- The pods of the stateful set: none if it or they can not be read.
  pub pods : Option (List ClusterPod)
  pub suspend_cr : Outcome
  pub scale_down : Outcome
  pub target_gone : Bool
  -- The message of the helper at each attempt; none is a success.
  pub storage_helper : ℕ → Option Codes
  pub galera_helper : ℕ → Option Codes
  pub storage_helper_gone : Bool
  pub galera_helper_gone : Bool
  pub scale_up : Outcome
  pub resume_cr : Outcome
  pub rescue_scale : Bool
  pub rescue_resume : Bool
  pub heal_rounds : ℕ
  pub pod_ready : ℕ → Bool

-- The local variables that the rescue reads, and the state.
pub record NodeRun : Type 0 where
  pub suspended : Bool
  pub scaled_down : Bool
  pub node : HealState

pub record NodeEnd : Type 0 where
  pub healed : Bool
  pub reached : HealState

abbrev pub is_mount_error : Codes → Bool
is_mount_error message =
    any (λ text. contains_codes (codes text) message)
      ("Multi-Attach" ∷ "already attached" ∷ "device busy" ∷ "FailedAttachVolume" ∷ "FailedMount"
        ∷ "timed out" ∷ [])

abbrev pub retry_on : Option Codes → Bool → Bool
retry_on none later = true
retry_on (some message) later = if is_mount_error message then later else false

-- Whether one of the attempts succeeds.
unfoldable pub run_helper_with_retry : (ℕ → Option Codes) → ℕ → ℕ → Bool
run_helper_with_retry answer zero i = false
run_helper_with_retry answer (suc left) i =
    retry_on (answer i) (run_helper_with_retry answer left (suc i))

-- The polls that are left.
unfoldable pub wait_ready : (ℕ → Bool) → ℕ → ℕ → Bool
wait_ready ready zero i = false
wait_ready ready (suc left) i =
    let later = wait_ready ready left (suc i) in if ready i then true else later

abbrev pub probe_holds : DonorProbe → Bool
probe_holds p =
    p.exec_ok
    && is_true p.wsrep_ready
    && is_true p.wsrep_connected
    && str_eq p.state_comment "Synced"

abbrev pub revert : Bool → Bool → (HealState → HealState) → HealState → HealState
revert true true f s = f s
revert true false f s = s
revert false ok f s = s

module _ (c : NodeCalls) where
  abbrev pub is_other_running : ClusterPod → Bool
  is_other_running p = not (str_eq p.name c.target_pod) && p.is_running

  abbrev pub pods_join : Option (List ClusterPod) → Bool
  pods_join none = false
  pods_join (some pods) = any is_other_running pods

  abbrev pub join_target_exists : Option DonorProbe → Bool
  join_target_exists none = pods_join c.pods
  join_target_exists (some probe) = probe_holds probe

  abbrev pub node_rescue : NodeRun → NodeEnd
  node_rescue r =
      let s1 =
        revert r.scaled_down c.rescue_scale (λ s. record s { replicas = c.original }) r.node in
      let s2 = revert r.suspended c.rescue_resume (λ s. record s { cr_suspended = false }) s1 in
      let s3 = revert r.suspended true (λ s. record s { marked_suspended = false }) s2 in
      record { healed = false; reached = s3 }

  abbrev pub try_call : Outcome → NodeRun → (NodeRun → NodeEnd) → NodeRun → NodeEnd
  try_call accepted done next r = next done
  try_call committed_unseen done next r = node_rescue (record r { node = done.node })
  try_call refused done next r = node_rescue r

  abbrev pub guarded : Bool → (NodeRun → NodeEnd) → NodeRun → NodeEnd
  guarded true next r = next r
  guarded false next r = node_rescue r

  abbrev pub log_step : NodeStep → NodeRun → NodeRun
  log_step e r = record r { node = record r.node { steps = r.node.steps ++ e ∷ [] } }

  -- A pod that does not get ready is an error, without a rescue.
  abbrev pub await_ready : NodeRun → NodeEnd
  await_ready r = record { healed = wait_ready c.pod_ready c.heal_rounds 0; reached = r.node }

  -- STEP 5.
  abbrev pub resumed_run : NodeRun → NodeRun
  resumed_run r = record {
    suspended = false;
    scaled_down = r.scaled_down;
    node = record r.node { cr_suspended = false; marked_suspended = false };
  }

  abbrev pub resume_after : NodeRun → NodeEnd
  resume_after r = try_call c.resume_cr (resumed_run r) await_ready r

  abbrev pub scaled_back : NodeRun → NodeRun
  scaled_back r = record {
    suspended = r.suspended;
    scaled_down = false;
    node = record r.node { replicas = c.original };
  }

  abbrev pub scale_back_up : NodeRun → NodeEnd
  scale_back_up r = try_call c.scale_up (scaled_back r) resume_after r

  -- The helpers have to be gone before.
  abbrev pub confirm_helpers : NodeRun → NodeEnd
  confirm_helpers =
      guarded c.storage_helper_gone
        (guarded (not c.has_galera_pvc || c.galera_helper_gone) scale_back_up)

  -- STEP 4.
  abbrev pub clear_config : Bool → NodeRun → NodeEnd
  clear_config false r = confirm_helpers r
  clear_config true r =
      guarded (run_helper_with_retry c.galera_helper 3 1) confirm_helpers
        (log_step config_removed r)

  -- STEP 3.
  abbrev pub write_storage : NodeRun → NodeEnd
  write_storage r =
      guarded (run_helper_with_retry c.storage_helper 3 1) (clear_config c.has_galera_pvc)
        (log_step storage_written r)

  -- STEP 2.
  abbrev pub scaled_to : NodeRun → NodeRun
  scaled_to r = record {
    suspended = r.suspended;
    scaled_down = true;
    node = record r.node { replicas = c.instance_num };
  }

  abbrev pub release_volume : NodeRun → NodeEnd
  release_volume r = try_call c.scale_down (scaled_to r) (guarded c.target_gone write_storage) r

  -- STEP 1: an error here returns without the rescue.
  abbrev pub suspend_by : Outcome → HealState → NodeEnd
  suspend_by accepted s = release_volume (record {
    suspended = true;
    scaled_down = false;
    node = record s { cr_suspended = true; marked_suspended = true };
  })
  suspend_by committed_unseen s = record {
    healed = false;
    reached = record s { cr_suspended = true };
  }
  suspend_by refused s = record { healed = false; reached = s }

  abbrev pub suspend_unless : Bool → HealState → NodeEnd
  suspend_unless true s =
      release_volume (record { suspended = true; scaled_down = false; node = s })
  suspend_unless false s = suspend_by c.suspend_cr s

  abbrev pub if_joinable : Bool → HealState → NodeEnd
  if_joinable false s = record { healed = false; reached = s }
  if_joinable true s = suspend_unless s.marked_suspended s

  abbrev pub if_highest : Bool → HealState → NodeEnd
  if_highest true s = record { healed = false; reached = s }
  if_highest false s = if_joinable (join_target_exists c.donor) s

  unfoldable pub heal_node : HealState → NodeEnd
  heal_node s = if_highest (ltb (suc c.instance_num) c.original) s
