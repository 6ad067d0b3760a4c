-- ===== src/Model.antt =====
-- src/output/model/results.go: the parts of a triage result that the decisions read.
use hasteward.Prelude.{ℕ, String, Bool, Option, List}

pub data AuthorityOutcome : Type 0 where
  provable undeterminable diverged leader_not_primary : AuthorityOutcome

pub data Classification : Type 0 where
  authoritative recoverable disposable unknown : Classification

pub record InstanceAssessment : Type 0 where
  pub pod : String
  pub is_running : Bool
  pub is_ready : Bool
  pub needs_heal : Bool
  pub notes : List String
  pub remediation : String
  pub is_primary : Bool
  pub timeline : ℕ
  pub lsn : String
  pub classification : Classification
  pub wsrep_state_comment : String
  pub wsrep_connected : String
  pub wsrep_ready : String
  -- `Disk.UsedBytes`, none without disk statistics.
  pub disk_used_bytes : Option ℕ

pub record DataComparison : Type 0 where
  pub most_advanced : String
  pub safe_to_heal : Bool
  pub authority : AuthorityOutcome
  pub primary_members : List String

pub record Recovery : Type 0 where
  pub blocked : Bool
  pub reason : String
  pub authority : String
  pub disposable : List String
  pub recovery_set : List String

pub record TriageResult : Type 0 where
  pub assessments : List InstanceAssessment
  pub data_comparison : DataComparison
  pub recovery : Option Recovery
  pub all_nodes_down : Bool
  pub authority_status : String
