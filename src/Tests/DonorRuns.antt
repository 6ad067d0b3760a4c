-- ===== src/Tests/DonorRuns.antt =====
-- A Galera cluster whose second node answers on the third attempt.
use hasteward.Prelude.{ℕ, suc, zero, ◌<◌, String, true, Option, none, some, [], ◌∷◌, ◌≡◌, refl}
use hasteward.Model.{InstanceAssessment, TriageResult}
use hasteward.Repair.{
  PodState, in_phase, WsrepStatus, DonorSelection, aborted, probe_failed, lookup, query_attempts,
  probe_wsrep, resolve_explicit_donor,
}
use hasteward.Repair.Donating.{IsSynced, resolve_explicit_donor-IsSynced}
use hasteward.Tests.TriageRuns.{replica, frozen}

abbrev status : WsrepStatus
status =
    ("wsrep_ready", "ON") ∷ ("wsrep_connected", "ON") ∷ ("wsrep_local_state_comment", "Synced") ∷ []

abbrev slow : String → ℕ → Option WsrepStatus
slow pod zero = none
slow pod (suc zero) = none
slow pod (suc (suc zero)) = some []
slow pod (suc (suc (suc i))) = some status

abbrev silent : String → ℕ → Option WsrepStatus
silent pod i = none

abbrev up : String → PodState
up pod = in_phase "Running"

abbrev node : ℕ → String
node zero = "db-0"
node (suc i) = "db-1"

abbrev donor : DonorSelection
donor = record {
  pod = "db-1";
  mode = "explicit";
  probe = record {
    pod_exists = true;
    pod_running = true;
    exec_ok = true;
    wsrep_ready = some true;
    wsrep_connected = some true;
    state_comment = "Synced";
  };
}

refuses_silence : resolve_explicit_donor 3 1 node up silent ≡ aborted probe_failed
unfolding resolve_explicit_donor probe_wsrep query_attempts
refuses_silence = refl

resolve_explicit_donor-IsSynced_example :
    (1 < 3)
    × (donor.pod ≡ node 1)
    × (up donor.pod ≡ in_phase "Running")
    × IsSynced (probe_wsrep (up donor.pod) (slow donor.pod))
unfolding resolve_explicit_donor probe_wsrep query_attempts lookup
resolve_explicit_donor-IsSynced_example =
    resolve_explicit_donor-IsSynced 3 1 node up slow donor refl

abbrev synced : InstanceAssessment
synced = record replica {
  pod = "db-1";
  is_running = true;
  wsrep_state_comment = "Synced";
  wsrep_connected = "ON";
  wsrep_ready = "ON";
}

abbrev galera : TriageResult
galera = record frozen { assessments = replica ∷ synced ∷ [] }

abbrev picked : DonorSelection
picked = record donor { mode = "auto" }
