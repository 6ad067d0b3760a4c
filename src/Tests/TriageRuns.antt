-- ===== src/Tests/TriageRuns.antt =====
-- A cluster of a primary that is down and a replica that filled its disk.
use hasteward.Prelude.{String, ◌≡◌, refl, ◌≢◌, Bool, true, false, some, [], ◌∷◌, Elem}
use hasteward.Model.{
  provable, authoritative, disposable, InstanceAssessment, DataComparison, Recovery, TriageResult,
}
use hasteward.Triage.{
  auto_heal, operator_required, bootstrap_required, has_join_target, heal_pods, classify,
}
use hasteward.Triage.Response.{classify-IsResponse}

abbrev pub replica : InstanceAssessment
replica = record {
  pod = "pg-2";
  is_running = false;
  is_ready = false;
  needs_heal = true;
  notes = "disk full" ∷ [];
  remediation = "";
  is_primary = false;
  timeline = 1;
  lsn = "0/5A";
  classification = disposable;
  wsrep_state_comment = "";
  wsrep_connected = "";
  wsrep_ready = "";
  disk_used_bytes = some 4096;
}

abbrev pub primary : InstanceAssessment
primary = record replica {
  pod = "pg-1";
  needs_heal = false;
  notes = [];
  is_primary = true;
  timeline = 2;
  classification = authoritative;
}

abbrev pub safe : DataComparison
safe = record {
  most_advanced = "pg-1";
  safe_to_heal = true;
  authority = provable;
  primary_members = [];
}

abbrev pub recovery : Recovery
recovery = record {
  blocked = true;
  reason = "disk_full_disposable_replica";
  authority = "pg-1";
  disposable = "pg-2" ∷ [];
  recovery_set = "pg-1" ∷ "pg-2" ∷ [];
}

abbrev pub frozen : TriageResult
frozen = record {
  assessments = primary ∷ replica ∷ [];
  data_comparison = safe;
  recovery = some recovery;
  all_nodes_down = false;
  authority_status = "unambiguous";
}

bootstrap : (classify frozen).class ≡ bootstrap_required
unfolding classify has_join_target heal_pods
bootstrap = refl

-- With the primary up, the replica is healed.
abbrev serving : TriageResult
serving = record frozen {
  assessments = record primary { is_running = true; is_ready = true } ∷ replica ∷ [];
}

heals : (classify serving).targets ≡ "pg-2" ∷ []
unfolding classify has_join_target heal_pods
heals = refl

classify-IsResponse_example :
    ((pod : String)
      → Elem pod (classify serving).targets
      → (has_join_target serving ≡ true)
        × (serving.data_comparison.safe_to_heal ≡ true)
        × ((a : InstanceAssessment) × Elem a serving.assessments
            × (a.pod ≡ pod)
            × (a.needs_heal ≡ true)))
    × ((a : InstanceAssessment)
        → has_join_target serving ≡ true
        → serving.data_comparison.safe_to_heal ≡ true
        → Elem a serving.assessments
        → a.needs_heal ≡ true
        → ((classify serving).class ≡ auto_heal) × Elem a.pod (classify serving).targets)
    × ((classify serving).class ≡ auto_heal → (classify serving).targets ≢ [])
    × (serving.data_comparison.safe_to_heal ≡ false → (classify serving).class ≡ operator_required)
    × (serving.data_comparison.safe_to_heal ≡ true
        → has_join_target serving ≡ false
        → (classify serving).class ≡ bootstrap_required)
classify-IsResponse_example = classify-IsResponse serving

abbrev is_primary_flag : Bool
is_primary_flag = false
