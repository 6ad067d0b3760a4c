-- ===== src/Repair/Breaker.antt =====
-- src/engine/repair/cnpg_preassess.go: the deadlock breaker `PreAssess`, without `--promote`. What it
-- calls of the cluster is the record BreakerHooks, over the state `S`.
use hasteward.Prelude.{
  String, Bool, true, false, not, ◌&&◌, ◌||◌, Option, none, some, List, [], ◌∷◌, if◌then◌else◌,
  str_eq,
}
use hasteward.Model.{Recovery, TriageResult}
use hasteward.Escrow.{
  EscrowRef, used_bytes_by_pvc, Backend, Refusal, Result, ok, err, RecoverySet, prepare, capture,
  PodRead, discover_pvcs,
}
use hasteward.Triage.{is_empty}
use hasteward.Repair.Proof.{RecoveryProof, Line, hash_assessment, valid, authorizes_clear}

-- A call that returns an error is `false`, or `none` where it returns a value too.
pub record BreakerHooks (S : Type 0) : Type 0 where
  pub unwedge : Bool
  pub dry_run : Bool
  pub triage : S → Option TriageResult × S
  pub data_pvc_name : String → String
  pub read_pod : S → String → PodRead
  pub backend : S → Backend S
  pub persist : RecoveryProof → S → Bool × S
  pub breaker_config : TriageResult → S → Bool
  pub clear_datadir : String → S → Bool × S
  pub wait_unfrozen : String → S → Bool × S
  pub heal_config : S → Bool × S
  pub heal_instance : String → S → Bool × S

-- What the breaker did to the cluster and to the escrow store, in order.
pub data Action : Type 0 where
  did_capture : Result (List EscrowRef) → Action
  did_persist : RecoveryProof → Bool → Action
  did_clear : String → Bool → Action
  did_reclone : String → Bool → Action

pub data BreakOutcome : Type 0 where
  inert not_breakable previewed broken : BreakOutcome
  triage_error ambiguous no_pvcs drifted not_persisted no_config unauthorized clear_error :
      BreakOutcome
  still_frozen no_heal_config reclone_error : BreakOutcome
  escrow_refused : Refusal → BreakOutcome

pub record Broke (S : Type 0) : Type 0 where
  pub outcome : BreakOutcome
  pub actions : List Action
  pub state : S

abbrev pub breaker_proof :
    (List Line → String) → TriageResult → Recovery → List EscrowRef → RecoveryProof
breaker_proof digest confirm rec refs = record {
  assessment_hash = hash_assessment digest (some confirm);
  authority = rec.authority;
  disposable = rec.disposable;
  escrow_refs = refs;
  escrow_verified = true;
}

unfoldable pub is_breakable : Recovery → Bool
is_breakable rec = rec.blocked && str_eq rec.reason "disk_full_disposable_replica"

unfoldable pub is_refused : TriageResult → Recovery → Bool
is_refused t rec =
    not (str_eq t.authority_status "unambiguous")
    || str_eq rec.authority ""
    || is_empty rec.disposable

module _ {S : Type 0} (digest : List Line → String) (b : BreakerHooks S) where
  abbrev pub end_with : BreakOutcome → S → Broke S
  end_with o s = record { outcome = o; actions = []; state = s }

  abbrev pub doing : Action → Broke S → Broke S
  doing a t = record { outcome = t.outcome; actions = a ∷ t.actions; state = t.state }

  -- Step 8.
  abbrev pub after_reclone : String → Bool × S → (S → Broke S) → Broke S
  after_reclone i (true, s) rest = doing (did_reclone i true) (rest s)
  after_reclone i (false, s) rest = doing (did_reclone i false) (end_with reclone_error s)

  unfoldable pub reclone_each : List String → S → Broke S
  reclone_each [] s = end_with broken s
  reclone_each (i ∷ is) s = after_reclone i (b.heal_instance i s) (reclone_each is)

  abbrev pub after_heal_config : Recovery → Bool × S → Broke S
  after_heal_config rec (true, s) = reclone_each rec.disposable s
  after_heal_config rec (false, s) = end_with no_heal_config s

  -- Step 7.
  abbrev pub after_wait : Recovery → Bool × S → Broke S
  after_wait rec (true, s) = after_heal_config rec (b.heal_config s)
  after_wait rec (false, s) = end_with still_frozen s

  -- Step 6, over the disposables that are left.
  abbrev pub after_clear : String → Bool × S → (S → Broke S) → Broke S
  after_clear i (true, s) rest = doing (did_clear i true) (rest s)
  after_clear i (false, s) rest = doing (did_clear i false) (end_with clear_error s)

  unfoldable pub clear_each : Recovery → RecoveryProof → List String → S → Broke S
  clear_each rec proof [] s = after_wait rec (b.wait_unfrozen rec.authority s)
  clear_each rec proof (i ∷ is) s =
      let rest = clear_each rec proof is in
      if not (authorizes_clear proof i)
      then end_with unauthorized s
      else after_clear i (b.clear_datadir i s) rest

  -- Step 5.
  abbrev pub after_persist : TriageResult → Recovery → RecoveryProof → Bool × S → Broke S
  after_persist confirm rec proof (false, s) =
      doing (did_persist proof false) (end_with not_persisted s)
  after_persist confirm rec proof (true, s) = doing (did_persist proof true) (
      if b.breaker_config confirm s
      then clear_each rec proof rec.disposable s
      else end_with no_config s)

  -- Step 4.
  abbrev pub after_confirm : Recovery → List EscrowRef → Option TriageResult × S → Broke S
  after_confirm rec refs (none, s) = end_with triage_error s
  after_confirm rec refs (some confirm, s) =
      let proof = breaker_proof digest confirm rec refs in
      if not (valid digest proof (some confirm))
      then end_with drifted s
      else after_persist confirm rec proof (b.persist proof s)

  -- Step 3.
  abbrev pub after_capture : Recovery → Result (List EscrowRef) × S → Broke S
  after_capture rec (err e, s) = doing (did_capture (err e)) (end_with (escrow_refused e) s)
  after_capture rec (ok refs, s) =
      doing (did_capture (ok refs)) (after_confirm rec refs (b.triage s))

  abbrev pub unless_dry : Recovery → RecoverySet S → Bool → S → Broke S
  unless_dry rec r true s = end_with previewed s
  unless_dry rec r false s = after_capture rec (capture r s)

  abbrev pub after_prepared : Recovery → Result (RecoverySet S) → S → Broke S
  after_prepared rec (err e) s = end_with (escrow_refused e) s
  after_prepared rec (ok r) s = unless_dry rec r b.dry_run s

  -- Step 2.
  abbrev pub after_discover : TriageResult → Recovery → Option (List String) → S → Broke S
  after_discover t rec none s = end_with no_pvcs s
  after_discover t rec (some set) s =
      after_prepared rec
        (prepare (b.backend s) set (used_bytes_by_pvc t.assessments rec.recovery_set)) s

  -- Step 1.
  abbrev pub break_deadlock : TriageResult → Option Recovery → S → Broke S
  break_deadlock t none s = end_with not_breakable s
  break_deadlock t (some rec) s =
      if not (is_breakable rec)
      then end_with not_breakable s
      else if is_refused t rec
      then end_with ambiguous s
      else after_discover t rec (discover_pvcs b.data_pvc_name (b.read_pod s) rec.recovery_set) s

  abbrev pub after_triage : Option TriageResult × S → Broke S
  after_triage (none, s) = end_with triage_error s
  after_triage (some t, s) = break_deadlock t t.recovery s

  abbrev pub unless_off : Bool → S → Broke S
  unless_off false s = end_with inert s
  unless_off true s = after_triage (b.triage s)

  unfoldable pub pre_assess : S → Broke S
  pre_assess s = unless_off b.unwedge s
