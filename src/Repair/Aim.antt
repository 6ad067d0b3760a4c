-- ===== src/Repair/Aim.antt =====
-- The plan of a repair that names its instance: `planTargeted` of src/engine/repair/cnpg.go and
-- galera.go, and `SafetyGate` of galera.go. The texts of refusals and reasons are left out.
use hasteward.Prelude.{
  String, Bool, true, false, ◌&&◌, ◌||◌, not, Option, none, some, List, [], ◌∷◌, if◌then◌else◌,
  str_eq,
}
use hasteward.Model.{InstanceAssessment, TriageResult}
use hasteward.Triage.{is_empty}
use hasteward.Repair.Service.{HealTarget}

pub data AimRefusal : Type 0 where
  is_the_primary is_the_authority not_assessed split_brain_unforced pvc_not_found : AimRefusal

pub data Aimed : Type 0 where
  aim_refused : AimRefusal → Aimed
  aimed_at : List HealTarget → Aimed

unfoldable pub find_assessment : String → List InstanceAssessment → Option InstanceAssessment
find_assessment pod [] = none
find_assessment pod (a ∷ as') = if str_eq a.pod pod then some a else find_assessment pod as'

-- The gates before a reseed: the data are safe to heal, the instance needs it, the force flag, and
-- whether the claim is found.
abbrev pub reseed_if : Bool → Bool → Bool → Bool → HealTarget → Aimed
reseed_if safe needs force claim t =
    if not safe && not force
    then aim_refused split_brain_unforced
    else if not needs && not force
    then aimed_at []
    else if not claim
    then aim_refused pvc_not_found
    else aimed_at (t ∷ [])

-- The instance may be restarted instead, or not.
abbrev pub aim_by : Bool → Bool → Bool → Bool → Bool → String → Aimed
aim_by true safe needs force claim target =
    aimed_at (record { pod = target; remediation = "restart" } ∷ [])
aim_by false safe needs force claim target =
    reseed_if safe needs force claim (record { pod = target; remediation = "reseed" })

abbrev pub aim_at_assessed : TriageResult → Bool → Bool → String → Option InstanceAssessment → Aimed
aim_at_assessed r force claim target none = aim_refused not_assessed
aim_at_assessed r force claim target (some a) =
    aim_by (str_eq a.remediation "restart" && not force) r.data_comparison.safe_to_heal a.needs_heal
      force claim target

-- The target is the primary, or triage calls it the authority while a heal is not safe.
abbrev pub unless_guarded : Bool → Bool → Aimed → Aimed
unless_guarded true authority rest = aim_refused is_the_primary
unless_guarded false true rest = aim_refused is_the_authority
unless_guarded false false rest = rest

abbrev pub guards_authority : TriageResult → String → Bool
guards_authority r target =
    not r.data_comparison.safe_to_heal
    && not (str_eq r.data_comparison.most_advanced "")
    && str_eq target r.data_comparison.most_advanced

unfoldable pub plan_targeted_cnpg : TriageResult → String → String → Bool → Bool → Aimed
plan_targeted_cnpg r primary target force claim =
    unless_guarded (str_eq target primary) (guards_authority r target)
      (aim_at_assessed r force claim target (find_assessment target r.assessments))

-- Of the Galera engine: neither the primary nor the authority is guarded here, and the target has no
-- remediation.
unfoldable pub plan_targeted_galera : TriageResult → String → Bool → Bool → Aimed
plan_targeted_galera r target force claim = elim (find_assessment target r.assessments) [
  | none ↦ aim_refused not_assessed
  | some a ↦
      reseed_if r.data_comparison.safe_to_heal a.needs_heal force claim
        (record { pod = target; remediation = "" })
]

-- The calls of the gate, and what it says: `resolves` is the resolution of the donor.
pub data GateCall : Type 0 where
  gate_suspended gate_resumed recovery_pods_removed donor_sought : GateCall

pub record GateRun : Type 0 where
  pub calls : List GateCall
  pub passed : Bool
  -- `crSuspended` after the gate.
  pub holds_suspended : Bool

unfoldable pub safety_gate_galera : TriageResult → Bool → Bool → GateRun
safety_gate_galera r suspend_ok resolves =
    if r.all_nodes_down || is_empty r.data_comparison.primary_members
    then record { calls = []; passed = false; holds_suspended = false }
    else if not suspend_ok
    then record { calls = []; passed = false; holds_suspended = false }
    else if not resolves
    then record {
      calls = gate_suspended ∷ recovery_pods_removed ∷ donor_sought ∷ gate_resumed ∷ [];
      passed = false;
      holds_suspended = false;
    }
    else record {
      calls = gate_suspended ∷ recovery_pods_removed ∷ donor_sought ∷ [];
      passed = true;
      holds_suspended = true;
    }
