-- ===== src/GaleraTriage/Assessment.antt =====
-- `buildAssessments` of src/engine/triage/galera.go. A node's state is the branch that the source
-- takes, in place of its notes and its recommendation.
use hasteward.Prelude.{
  ℤ, pos, negsuc, int_ltb, int_eq, find, find_or, ltb, ◌-◌, String, Bool, true, false, ◌&&◌, ◌||◌,
  not, Option, none, some, List, map, if◌then◌else◌, str_eq,
}
use hasteward.Model.{AuthorityOutcome, undeterminable, DataComparison}
use hasteward.GaleraTriage.Data.{Grastate, WsrepReading, EffectiveSeqno, GaleraTriageData}
use hasteward.GaleraTriage.Comparison.{has, primary_best, galera_instance_comparison}

pub data NodeState : Type 0 where
  ahead_of_component no_data_unresolved authority_unread split_brain_detected : NodeState
  disk_low synced transitional disconnected wsrep_unread outside_primary wsrep_failed : NodeState
  crashloop_disk_full crashloop_current crashloop_stale : NodeState
  missing_current missing_stale missing_no_data unknown_state : NodeState

abbrev pub needs_heal_in : NodeState → Bool
needs_heal_in s = elim s [
  | disconnected ↦ true
  | outside_primary ↦ true
  | wsrep_failed ↦ true
  | crashloop_disk_full ↦ true
  | crashloop_stale ↦ true
  | missing_stale ↦ true
  | _ ↦ false
]

-- `ws` of a pod with the values that stand in for a missing one.
pub record WsrepView : Type 0 where
  pub state : ℤ
  pub connected : String
  pub ready : String
  pub cluster_status : String
  pub present : Bool
  pub unread : Bool

abbrev pub view : Option WsrepReading → WsrepView
view none = record {
  state = pos 0;
  connected = "OFF";
  ready = "OFF";
  cluster_status = "unknown";
  present = false;
  unread = false;
}
view (some ws) = record {
  state = ws.local_state;
  connected = ws.connected;
  ready = ws.ready;
  cluster_status = ws.cluster_status;
  present = true;
  unread = ws.unread;
}

abbrev pub is_synced : WsrepView → Bool
is_synced w =
    int_eq w.state (pos 4)
    && str_eq w.connected "ON"
    && str_eq w.ready "ON"
    && str_eq w.cluster_status "Primary"

abbrev pub is_transitional : WsrepView → Bool
is_transitional w =
    not (int_ltb w.state (pos 1)) && not (int_ltb (pos 3) w.state) && str_eq w.connected "ON"

abbrev pub is_disconnected : WsrepView → Bool
is_disconnected w = str_eq w.connected "OFF" || str_eq w.ready "OFF"

abbrev pub is_foreign : WsrepView → Bool
is_foreign w = not (str_eq w.cluster_status "Primary") && not (str_eq w.cluster_status "unknown")

-- The branches for a comparison that is not safe.
abbrev pub unresolved_state : Bool → Bool → AuthorityOutcome → NodeState
unresolved_state true has_data outcome = ahead_of_component
unresolved_state false false outcome = no_data_unresolved
unresolved_state false true outcome = elim outcome [
  | undeterminable ↦ authority_unread
  | _ ↦ split_brain_detected
]

abbrev pub crashloop_state : Bool → Bool → NodeState
crashloop_state disk_full current =
    if disk_full
    then crashloop_disk_full
    else if current
    then crashloop_current
    else crashloop_stale

abbrev pub missing_state : Bool → Bool → NodeState
missing_state has_data current =
    if has_data then if current then missing_current else missing_stale else missing_no_data

abbrev pub down_state : Bool → Bool → Bool → Bool → Bool → NodeState
down_state crashloop missing has_data disk_full current =
    if crashloop
    then crashloop_state disk_full current
    else if missing
    then missing_state has_data current
    else unknown_state

-- The branches for a running node, and the node's state when none of them applies.
abbrev pub running_state : WsrepView → Bool → NodeState → NodeState
running_state w low otherwise =
    if is_synced w
    then if low then disk_low else synced
    else if is_transitional w
    then transitional
    else if is_disconnected w
    then disconnected
    else if w.unread
    then wsrep_unread
    else if is_foreign w
    then outside_primary
    else if not w.present
    then wsrep_failed
    else otherwise

unfoldable pub node_state :
    DataComparison
    → WsrepView
    → (ahead has_data running low crashloop missing disk_full current : Bool) → NodeState
node_state c w ahead has_data running low crashloop missing disk_full current =
    let down = down_state crashloop missing has_data disk_full current in
    if not c.safe_to_heal
    then unresolved_state ahead has_data c.authority
    else if running
    then running_state w low down
    else down

pub record NodeAssessment : Type 0 where
  pub pod : String
  pub is_running : Bool
  pub is_ready : Bool
  pub needs_heal : Bool
  pub state : NodeState
  pub is_in_primary : Bool
  pub effective_seqno : ℤ
  pub seqno_lag : ℤ
  pub wsrep : WsrepView

abbrev pub value_of : Option EffectiveSeqno → ℤ
value_of none = negsuc 0
value_of (some es) = es.value

abbrev pub difference : ℤ → ℤ → ℤ
difference (pos a) (pos b) = if ltb a b then negsuc (b - a - 1) else pos (a - b)
difference a b = negsuc 0

-- Both sides are positive where the source subtracts.
abbrev pub lag_of : ℤ → ℤ → ℤ
lag_of best seqno =
    if int_ltb (pos 0) best && int_ltb (pos 0) seqno then difference best seqno else negsuc 0

unfoldable pub assess_node : GaleraTriageData → DataComparison → ℤ → Grastate → NodeAssessment
assess_node d c best g =
    let crashloop = has g.pod d.crashloop_pods in
    let running = has g.pod (map (λ p. p.name) d.running_pods) && not crashloop in
    let in_primary = has g.pod d.primary_members in
    let w = view (find g.pod d.wsrep_map) in
    let seqno = value_of (find g.pod d.effective_seqnos) in
    let lag = lag_of best seqno in
    let disk_full = str_eq (find_or "" g.pod d.crash_reasons) "disk_full" in
    let low = disk_full || not (int_ltb (find_or (pos 0) g.pod d.disk_usage) (pos 90)) in
    let current = int_ltb (pos 0) seqno && int_ltb (pos 0) best && not (int_ltb (pos 0) lag) in
    let ahead = not in_primary && int_ltb best seqno && int_ltb (pos 0) seqno in
    let state =
      node_state c w ahead (not (str_eq g.source "none")) running low crashloop
        (has g.pod d.missing_nodes) disk_full current in
    record {
      pod = g.pod;
      is_running = running;
      is_ready = running && int_eq w.state (pos 4);
      needs_heal = needs_heal_in state;
      state = state;
      is_in_primary = in_primary;
      effective_seqno = seqno;
      seqno_lag = lag;
      wsrep = w;
    }

unfoldable pub build_assessments : GaleraTriageData → List NodeAssessment
build_assessments d =
    map (assess_node d (galera_instance_comparison d) (primary_best d)) d.grastate_data
