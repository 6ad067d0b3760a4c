-- ===== src/Bootstrap/Gates.antt =====
-- The gates of `Bootstrap` of src/engine/bootstrap/galera.go, before anything is changed. The age of a
-- lock is in seconds, and none if the annotation can not be read as a lock.
use hasteward.Prelude.{
  ℕ, ℤ, pos, int_ltb, int_eq, ltb, any, String, Bool, true, false, ◌&&◌, not, Option, none, some,
  List, if◌then◌else◌, str_eq,
}
use hasteward.Triage.{is_empty}

-- What the bootstrap reads of an assessment.
pub record NodeRead : Type 0 where
  pub pod : String
  pub effective_seqno : ℤ
  pub safe_to_bootstrap : String
  pub is_running : Bool
  pub is_ready : Bool

-- The parts of the triage: `deadlock_target` is that of the diagnosis of an operator deadlock.
pub record BootTriage : Type 0 where
  pub nodes_read : List NodeRead
  pub all_down : Bool
  pub safe_data : Bool
  pub best_seqno_node : Option NodeRead
  pub deadlock_target : Option String

pub data BootRefusal : Type 0 where
  locked_recently triage_error has_healthy_node no_nodes ambiguous_candidate split_brain_found :
      BootRefusal

-- The light way on a live cluster, or the fenced one from a candidate, which is "" if the cluster is
-- belly-up.
pub data BootPlan : Type 0 where
  boot_refused : BootRefusal → BootPlan
  boot_online : String → BootPlan
  boot_from : String → (belly_up : Bool) → BootPlan

abbrev pub is_recent : Option ℕ → Bool
is_recent none = false
is_recent (some age) = ltb age 3600

abbrev pub serves_now : NodeRead → Bool
serves_now a = a.is_running && a.is_ready

abbrev pub competes : NodeRead → NodeRead → Bool
competes c a =
    not (str_eq a.pod c.pod)
    && int_eq a.effective_seqno c.effective_seqno
    && int_ltb (pos 0) c.effective_seqno

abbrev pub candidate_gate : BootTriage → Bool → Option NodeRead → BootPlan
candidate_gate t force none =
    if is_empty t.nodes_read then boot_refused no_nodes else boot_from "" true
candidate_gate t force (some c) =
    if any (competes c) t.nodes_read && not force
    then boot_refused ambiguous_candidate
    else if not t.safe_data && not force
    then boot_refused split_brain_found
    else boot_from c.pod false

abbrev pub offline_gate : BootTriage → Bool → Option String → BootPlan
offline_gate t force (some target) = boot_online target
offline_gate t force none =
    if not t.all_down && any serves_now t.nodes_read
    then boot_refused has_healthy_node
    else candidate_gate t force t.best_seqno_node

abbrev pub triage_gate : Bool → Option BootTriage → BootPlan
triage_gate force none = boot_refused triage_error
triage_gate force (some t) = offline_gate t force t.deadlock_target

unfoldable pub plan_bootstrap : Option ℕ → Option BootTriage → Bool → BootPlan
plan_bootstrap lock_age t force =
    if is_recent lock_age && not force then boot_refused locked_recently else triage_gate force t
