-- ===== src/Repair/Capture.antt =====
-- src/engine/repair/escrow.go: the escrow before a heal. The backups, the repository and the pods are
-- the record EscrowHooks, over the state `S` of the storage. The job's tags and the names of the
-- dumps are left out.
use hasteward.Prelude.{
  String, Bool, true, false, not, ◌||◌, Option, none, some, List, [], ◌∷◌, if◌then◌else◌, str_eq,
}
use hasteward.Model.{InstanceAssessment, TriageResult}
use hasteward.Escrow.{
  Config, EscrowRef, Backend, Refusal, Result, ok, err, gate, PodRead, discover_pvcs,
  used_bytes_by_pvc,
}

-- `repo_exists` is `none` on an error; a backup that returns an error is `false`.
pub record EscrowHooks (S : Type 0) : Type 0 where
  pub repo_exists : Option Bool
  pub backup_dump : String → String → S → Bool × S
  pub data_pvc_name : String → String
  pub read_pod : S → String → PodRead
  pub backend : S → Backend S

pub data EscrowError : Type 0 where
  not_configured repo_unreadable repo_missing backup_failed no_pvcs : EscrowError
  gate_error : Refusal → EscrowError

-- The error that is returned, the pods whose diverged dump succeeded, the block-level captures, and
-- the state that is left.
pub record Escrowed (S : Type 0) : Type 0 where
  pub error : Option EscrowError
  pub dumped : List String
  pub refs : List EscrowRef
  pub state : S

pub record Dumps (S : Type 0) : Type 0 where
  pub dumped : List String
  pub undumpable : List String
  pub state : S

unfoldable pub assert_escrow_repo : Option Bool → Option EscrowError
assert_escrow_repo none = some repo_unreadable
assert_escrow_repo (some exists_now) = if not exists_now then some repo_missing else none

abbrev pub is_up : InstanceAssessment → Bool
is_up a = not (not a.is_running || not a.is_ready)

module _ {S : Type 0} (cfg : Config) (b : EscrowHooks S) where
  abbrev pub escrow_error : EscrowError → List String → S → Escrowed S
  escrow_error e dumped s = record { error = some e; dumped = dumped; refs = []; state = s }

  abbrev pub escrow_done : List String → List EscrowRef → S → Escrowed S
  escrow_done dumped refs s = record { error = none; dumped = dumped; refs = refs; state = s }

  abbrev pub undumped : String → Dumps S → Dumps S
  undumped pod d = record { dumped = d.dumped; undumpable = pod ∷ d.undumpable; state = d.state }

  abbrev pub after_dump : String → Bool × S → (S → Dumps S) → Dumps S
  after_dump pod (true, s) rest =
      let d = rest s in
      record { dumped = pod ∷ d.dumped; undumpable = d.undumpable; state = d.state }
  after_dump pod (false, s) rest = undumped pod (rest s)

  abbrev pub dump_one : String → Bool → S → (S → Dumps S) → Dumps S
  dump_one pod false s rest = undumped pod (rest s)
  dump_one pod true s rest = after_dump pod (b.backup_dump "diverged" pod s) rest

  unfoldable pub dump_diverged : List InstanceAssessment → S → Dumps S
  dump_diverged [] s = record { dumped = []; undumpable = []; state = s }
  dump_diverged (a ∷ as') s = dump_one a.pod (is_up a) s (dump_diverged as')

  abbrev pub after_gate_of : List String → Result (List EscrowRef) × S → Escrowed S
  after_gate_of dumped (ok refs, s) = escrow_done dumped refs s
  after_gate_of dumped (err e, s) = escrow_error (gate_error e) dumped s

  abbrev pub after_volumes :
      TriageResult → List String → List String → Option (List String) → S → Escrowed S
  after_volumes result dumped pods none s = escrow_error no_pvcs dumped s
  after_volumes result dumped pods (some set) s =
      after_gate_of dumped
        (gate cfg (b.backend s) set (used_bytes_by_pvc result.assessments pods) s)

  -- With the pods whose dump succeeded passed on.
  unfoldable pub escrow_undumpable : TriageResult → List String → List String → S → Escrowed S
  escrow_undumpable result dumped [] s = escrow_done dumped [] s
  escrow_undumpable result dumped (p ∷ ps) s =
      after_volumes result dumped (p ∷ ps) (discover_pvcs b.data_pvc_name (b.read_pod s) (p ∷ ps)) s

  abbrev pub after_dumps : TriageResult → Dumps S → Escrowed S
  after_dumps result d = escrow_undumpable result d.dumped d.undumpable d.state

  -- The two flags: safe to heal, and no escrow.
  abbrev pub diverged_backups : Bool → Bool → TriageResult → S → Escrowed S
  diverged_backups false false result s = after_dumps result (dump_diverged result.assessments s)
  diverged_backups _ _ result s = escrow_done [] [] s

  abbrev pub after_backup : TriageResult → Bool × S → Escrowed S
  after_backup result (true, s) =
      diverged_backups result.data_comparison.safe_to_heal cfg.no_escrow result s
  after_backup result (false, s) = escrow_error backup_failed [] s

  abbrev pub pre_repair_backup : TriageResult → String → Option EscrowError → S → Escrowed S
  pre_repair_backup result donor (some e) s = escrow_error e [] s
  pre_repair_backup result donor none s =
      after_backup result (if str_eq donor "" then (true, s) else b.backup_dump "backup" donor s)

  abbrev pub is_unconfigured : Bool
  is_unconfigured = str_eq cfg.backups_path "" || str_eq cfg.restic_password ""

  abbrev pub unless_quiet : Bool → TriageResult → String → S → Escrowed S
  unless_quiet true result donor s =
      diverged_backups result.data_comparison.safe_to_heal cfg.no_escrow result s
  unless_quiet false result donor s =
      if is_unconfigured
      then escrow_error not_configured [] s
      else pre_repair_backup result donor (assert_escrow_repo b.repo_exists) s

  unfoldable pub run_escrow : TriageResult → String → S → Escrowed S
  run_escrow result donor s = unless_quiet cfg.no_escrow result donor s
