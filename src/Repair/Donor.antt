-- ===== src/Repair/Donor.antt =====
-- src/engine/repair/galera_donor.go: the donor of a Galera repair. The read of a pod and the answers
-- of the wsrep query, one for each attempt, are arguments. Warnings and the size of the cluster are
-- left out.
use hasteward.Prelude.{
  ℕ, zero, suc, String, Bool, true, false, not, ◌&&◌, Option, none, some, List, [], ◌∷◌, select,
  leb, if◌then◌else◌, str_eq,
}
use hasteward.Model.{InstanceAssessment, TriageResult}

-- The read of a pod, with its phase.
pub data PodState : Type 0 where
  absent : PodState
  in_phase : String → PodState

-- The map of wsrep variables.
abbrev pub WsrepStatus : Type 0
WsrepStatus = List (String × String)

pub record DonorProbe : Type 0 where
  pub pod_exists : Bool
  pub pod_running : Bool
  pub exec_ok : Bool
  pub wsrep_ready : Option Bool
  pub wsrep_connected : Option Bool
  pub state_comment : String

pub record DonorSelection : Type 0 where
  pub pod : String
  pub mode : String
  pub probe : DonorProbe

pub data DonorError : Type 0 where
  out_of_range not_found not_running probe_failed not_suitable no_donor ambiguous : DonorError

pub data DonorResult : Type 0 where
  chosen : DonorSelection → DonorResult
  aborted : DonorError → DonorResult

unfoldable pub lookup : String → WsrepStatus → Option String
lookup key [] = none
lookup key ((k, v) ∷ m) = if str_eq k key then some v else lookup key m

abbrev pub is_on : Option String → Option Bool
is_on none = none
is_on (some v) = some (str_eq v "ON")

abbrev pub text_of : Option String → String
text_of none = ""
text_of (some v) = v

-- The attempts that are left, and the number of the next: data ends the loop, and so does the last.
abbrev pub end_or_retry : Option WsrepStatus → ℕ → Option WsrepStatus → Option WsrepStatus
end_or_retry (some (x ∷ m)) left later = some (x ∷ m)
end_or_retry answer zero later = answer
end_or_retry answer (suc left) later = later

unfoldable pub query_attempts : (ℕ → Option WsrepStatus) → ℕ → ℕ → Option WsrepStatus
query_attempts query zero i = none
query_attempts query (suc left) i = end_or_retry (query i) left (query_attempts query left (suc i))

abbrev pub no_exec : Bool → Bool → DonorProbe
no_exec there running = record {
  pod_exists = there;
  pod_running = running;
  exec_ok = false;
  wsrep_ready = none;
  wsrep_connected = none;
  state_comment = "";
}

abbrev pub read_status : Option WsrepStatus → DonorProbe
read_status none = no_exec true true
read_status (some []) = no_exec true true
read_status (some (x ∷ m)) =
    let state = text_of (lookup "wsrep_local_state_comment" (x ∷ m)) in
    record {
      pod_exists = true;
      pod_running = true;
      exec_ok = not (str_eq state "");
      wsrep_ready = is_on (lookup "wsrep_ready" (x ∷ m));
      wsrep_connected = is_on (lookup "wsrep_connected" (x ∷ m));
      state_comment = state;
    }

unfoldable pub probe_wsrep : PodState → (ℕ → Option WsrepStatus) → DonorProbe
probe_wsrep absent query = no_exec false true
probe_wsrep (in_phase p) query =
    if str_eq p "Running" then read_status (query_attempts query 3 1) else no_exec true false

abbrev pub is_true : Option Bool → Bool
is_true none = false
is_true (some b) = b

abbrev pub is_suitable : DonorProbe → Bool
is_suitable p =
    is_true p.wsrep_ready && is_true p.wsrep_connected && str_eq p.state_comment "Synced"

abbrev pub check_probe : String → DonorProbe → DonorResult
check_probe pod probe =
    if not probe.exec_ok
    then aborted probe_failed
    else if not (is_suitable probe)
    then aborted not_suitable
    else chosen (record { pod = pod; mode = "explicit"; probe = probe })

abbrev pub check_pod : String → PodState → DonorProbe → DonorResult
check_pod pod absent probe = aborted not_found
check_pod pod (in_phase p) probe =
    if not (str_eq p "Running") then aborted not_running else check_probe pod probe

-- The pod of the ordinal, and the reads of it.
unfoldable pub resolve_explicit_donor :
    ℕ → ℕ → (ℕ → String) → (String → PodState) → (String → ℕ → Option WsrepStatus) → DonorResult
resolve_explicit_donor replicas ordinal pod_name read_pod query =
    let pod = pod_name ordinal in
    if leb replicas ordinal
    then aborted out_of_range
    else check_pod pod (read_pod pod) (probe_wsrep (read_pod pod) (query pod))

abbrev pub is_candidate : InstanceAssessment → Bool
is_candidate a =
    a.is_running
    && str_eq a.wsrep_ready "ON"
    && str_eq a.wsrep_connected "ON"
    && str_eq a.wsrep_state_comment "Synced"

abbrev pub first_candidate : Bool → (String → DonorProbe) → List InstanceAssessment → DonorResult
first_candidate safe probe [] = aborted (if safe then no_donor else ambiguous)
first_candidate false probe (a ∷ as') = aborted ambiguous
first_candidate true probe (a ∷ as') =
    chosen (record { pod = a.pod; mode = "auto"; probe = probe a.pod })

-- The probe of the donor is stored, and not checked.
unfoldable pub resolve_auto_donor :
    TriageResult → (String → PodState) → (String → ℕ → Option WsrepStatus) → DonorResult
resolve_auto_donor result read_pod query =
    first_candidate result.data_comparison.safe_to_heal
      (λ pod. probe_wsrep (read_pod pod) (query pod)) (select is_candidate result.assessments)
