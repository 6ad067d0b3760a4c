-- ===== src/GaleraTriage/Data.antt =====
-- The types of src/engine/triage/galera.go, and `WsrepRecoverResult` and `ZeroUUID` of
-- src/engine/provider/galera_ops.go. Fields that are only printed are left out.
use hasteward.Prelude.{ℤ, String, Bool, List}

pub record Grastate : Type 0 where
  pub pod : String
  pub source : String
  pub uuid : String
  -- The field after `parseInt64`.
  pub seqno : ℤ

pub record WsrepReading : Type 0 where
  pub local_state : ℤ
  pub cluster_status : String
  pub connected : String
  pub ready : String
  pub cluster_state_uuid : String
  pub last_committed : ℤ
  pub unread : Bool

pub record EffectiveSeqno : Type 0 where
  pub value : ℤ
  pub source : String
  pub known : Bool

pub record WsrepRecoverResult : Type 0 where
  pub uuid : String
  pub seqno : ℤ
  pub last_committed : ℤ
  pub valid : Bool

abbrev pub zero_uuid : String
zero_uuid = "00000000-0000-0000-0000-000000000000"

-- A running pod and whether its container `mariadb` is ready.
pub record RunningPod : Type 0 where
  pub name : String
  pub mariadb_ready : Bool

-- A map is a list of entries, in the order in which an iteration visits them.
pub record GaleraTriageData : Type 0 where
  pub running_pods : List RunningPod
  pub missing_nodes : List String
  pub crashloop_pods : List String
  pub grastate_data : List Grastate
  pub wsrep_map : List (String × WsrepReading)
  pub log_recovered : List (String × ℤ)
  pub log_rec_uuid : List (String × String)
  pub wsrep_recovered : List (String × WsrepRecoverResult)
  pub effective_seqnos : List (String × EffectiveSeqno)
  pub disk_usage : List (String × ℤ)
  pub crash_reasons : List (String × String)
  pub primary_members : List String
  pub recovery_uuids : List String
  pub best_seqno_node : String
