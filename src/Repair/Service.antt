-- ===== src/Repair/Service.antt =====
-- src/engine/repair/service.go and contract.go: the lifecycle `Run` that all engines go through. The
-- hooks of an engine are the interface Repairer, over the state `S` of the cluster. Durations and the
-- steps that are shown to the operator are left out.
use hasteward.Prelude.{String, Bool, true, false, Option, none, some, List, [], ◌∷◌, ◌++◌}
use hasteward.Model.{TriageResult}

pub record HealTarget : Type 0 where
  pub pod : String
  pub remediation : String

-- The outcome of `PreAssess`: nil, one of the two errors that are a clean stop, or another error.
pub data PreAssessed : Type 0 where
  proceed stop pre_assess_error : PreAssessed

-- A hook that returns an error is `false`, or `none` where it returns a value too.
pub record Repairer (S : Type 0) : Type 0 where
  pub dry_run : Bool
  pub operation_lock : S → Bool × S
  pub release : S → S
  pub pre_assess : S → PreAssessed × S
  pub assess : S → Option TriageResult × S
  pub safety_gate : TriageResult → S → Bool × S
  pub escrow : TriageResult → S → Bool × S
  pub plan_targets : TriageResult → S → Option (List HealTarget) × S
  pub heal : HealTarget → S → Bool × S
  pub stabilize : S → S
  pub reassess : S → Option TriageResult × S
  pub verify_recovery : List String → S → Bool × S
  pub cleanup : S → S

-- A call of a hook, with the answer where `Run` branches on it.
pub data Call : Type 0 where
  did_lock did_gate did_escrow : Bool → Call
  did_release did_cleanup did_assess did_stabilize did_reassess : Call
  did_pre_assess : PreAssessed → Call
  did_plan : Option (List HealTarget) → Call
  did_heal : HealTarget → Bool → Call
  did_verify : List String → Bool → Call

pub data RepairError : Type 0 where
  lock_error pre_assess_failed triage_failed gate_refused escrow_failed plan_failed : RepairError
  heal_failed : String → RepairError
  verification_failed : RepairError

pub record RepairResult : Type 0 where
  pub healed_instances : List String
  pub post_triage_result : Option TriageResult

-- The two values that `Run` returns, the calls that it made in order, and the state it leaves.
pub record Trace (S : Type 0) : Type 0 where
  pub result : Option RepairResult
  pub error : Option RepairError
  pub calls : List Call
  pub state : S

module _ {S : Type 0} where
  abbrev pub fail : RepairError → S → Trace S
  fail e s = record { result = none; error = some e; calls = []; state = s }

  abbrev pub nothing_healed : S → Trace S
  nothing_healed s = record {
    result = some (record { healed_instances = []; post_triage_result = none });
    error = none;
    calls = [];
    state = s;
  }

  abbrev pub calling : Call → Trace S → Trace S
  calling c t = record { result = t.result; error = t.error; calls = c ∷ t.calls; state = t.state }

  abbrev pub verified : RepairResult → Bool × S → Trace S
  verified r (true, s) = record {
    result = some r;
    error = none;
    calls = did_verify r.healed_instances true ∷ [];
    state = s;
  }
  verified r (false, s) = record {
    result = some r;
    error = some verification_failed;
    calls = did_verify r.healed_instances false ∷ [];
    state = s;
  }

  abbrev pub verify : Repairer S → List String → Option TriageResult → S → Trace S
  verify r [] post s = record {
    result = some (record { healed_instances = []; post_triage_result = post });
    error = none;
    calls = [];
    state = s;
  }
  verify r (h ∷ hs) post s =
      verified (record { healed_instances = h ∷ hs; post_triage_result = post })
        (r.verify_recovery (h ∷ hs) s)

  -- Phases 6 and 7, after the last heal.
  abbrev pub reassessed : Repairer S → List String → Option TriageResult × S → Trace S
  reassessed r healed (post, s) = verify r healed post s

  unfoldable pub wind_up : Repairer S → List String → S → Trace S
  wind_up r healed s =
      calling did_stabilize
        (calling did_reassess (reassessed r healed (r.reassess (r.stabilize s))))

  -- Phase 5, over the targets that are left.
  abbrev pub after_heal : HealTarget → Bool × S → (S → Trace S) → Trace S
  after_heal t (true, s) rest = calling (did_heal t true) (rest s)
  after_heal t (false, s) rest = calling (did_heal t false) (fail (heal_failed t.pod) s)

  unfoldable pub heal_each : Repairer S → List HealTarget → List String → S → Trace S
  heal_each r [] healed s = wind_up r healed s
  heal_each r (t ∷ ts) healed s = after_heal t (r.heal t s) (heal_each r ts (healed ++ t.pod ∷ []))

  abbrev pub after_plan : Repairer S → Option (List HealTarget) × S → Trace S
  after_plan r (none, s) = calling (did_plan none) (fail plan_failed s)
  after_plan r (some [], s) = calling (did_plan (some [])) (nothing_healed s)
  after_plan r (some (t ∷ ts), s) = calling (did_plan (some (t ∷ ts))) (heal_each r (t ∷ ts) [] s)

  abbrev pub after_escrow : Repairer S → TriageResult → Bool × S → Trace S
  after_escrow r triage (false, s) = calling (did_escrow false) (fail escrow_failed s)
  after_escrow r triage (true, s) =
      calling (did_escrow true) (after_plan r (r.plan_targets triage s))

  abbrev pub after_gate : Repairer S → TriageResult → Bool × S → Trace S
  after_gate r triage (false, s) = calling (did_gate false) (fail gate_refused s)
  after_gate r triage (true, s) =
      calling (did_gate true) (after_escrow r triage (r.escrow triage s))

  -- The phases that mutate the cluster, which a dry run does not reach.
  abbrev pub mutate : Repairer S → Bool → TriageResult → S → Trace S
  mutate r true triage s = nothing_healed s
  mutate r false triage s = after_gate r triage (r.safety_gate triage s)

  abbrev pub after_assess : Repairer S → Option TriageResult × S → Trace S
  after_assess r (none, s) = calling did_assess (fail triage_failed s)
  after_assess r (some triage, s) = calling did_assess (mutate r r.dry_run triage s)

  abbrev pub after_pre_assess : Repairer S → PreAssessed × S → Trace S
  after_pre_assess r (proceed, s) = calling (did_pre_assess proceed) (after_assess r (r.assess s))
  after_pre_assess r (stop, s) = calling (did_pre_assess stop) (nothing_healed s)
  after_pre_assess r (pre_assess_error, s) =
      calling (did_pre_assess pre_assess_error) (fail pre_assess_failed s)

  -- The two deferred calls, last in first out.
  abbrev pub unwind : Repairer S → Trace S → Trace S
  unwind r t = record {
    result = t.result;
    error = t.error;
    calls = t.calls ++ did_cleanup ∷ did_release ∷ [];
    state = r.release (r.cleanup t.state);
  }

  abbrev pub after_lock : Repairer S → Bool × S → Trace S
  after_lock r (false, s) = calling (did_lock false) (fail lock_error s)
  after_lock r (true, s) = calling (did_lock true) (unwind r (after_pre_assess r (r.pre_assess s)))

  unfoldable pub run_repair : Repairer S → S → Trace S
  run_repair r s = after_lock r (r.operation_lock s)
