-- ===== src/Repair/Lifecycle.antt =====
-- The order of the phases of `Run` (src/engine/repair/service.go), on every way out.
use hasteward.Prelude.{
  String, Bool, true, false, Option, none, some, List, [], ◌∷◌, ◌++◌, ◌≡◌, refl, ◌⊎◌, inl, inr, All,
}
use hasteward.Model.{TriageResult}
use hasteward.Repair.Service.{
  HealTarget, PreAssessed, proceed, stop, pre_assess_error, Repairer, Call, did_lock, did_release,
  did_cleanup, did_assess, did_pre_assess, RepairResult, Trace, verified, reassessed, wind_up,
  after_heal, heal_each, after_plan, after_escrow, after_gate, mutate, after_assess,
  after_pre_assess, after_lock, run_repair,
}

-- A call between the lock and the deferred calls.
abbrev pub IsWork : Call → Type 0
IsWork (did_lock b) = ⊥
IsWork did_cleanup = ⊥
IsWork did_release = ⊥
IsWork _ = Unit

-- The calls that leave the cluster as it is, on a dry run.
abbrev pub IsPreview : Call → Type 0
IsPreview (did_pre_assess o) = Unit
IsPreview did_assess = Unit
IsPreview _ = ⊥

module _ {S : Type 0} (r : Repairer S) where
  verified-IsWork : (res : RepairResult) (v : Bool × S) → All IsWork (verified res v).calls
  verified-IsWork res (true, s) = (tt, tt)
  verified-IsWork res (false, s) = (tt, tt)

  reassessed-IsWork :
      (healed : List String) (v : Option TriageResult × S)
      → All IsWork (reassessed r healed v).calls
  reassessed-IsWork [] (post, s) = tt
  reassessed-IsWork (h ∷ hs) (post, s) = verified-IsWork _ (r.verify_recovery (h ∷ hs) s)

  after_heal-IsWork :
      (t : HealTarget) (v : Bool × S) (rest : S → Trace S)
      → ((s : S) → All IsWork (rest s).calls)
      → All IsWork (after_heal t v rest).calls
  after_heal-IsWork t (true, s) rest h = (tt, h s)
  after_heal-IsWork t (false, s) rest h = (tt, tt)

  heal_each-IsWork :
      (ts : List HealTarget) (healed : List String) (s : S)
      → All IsWork (heal_each r ts healed s).calls
  unfolding heal_each wind_up
  heal_each-IsWork [] healed s = (tt, (tt, reassessed-IsWork healed (r.reassess (r.stabilize s))))
  heal_each-IsWork (t ∷ ts) healed s =
      after_heal-IsWork t (r.heal t s) _ (heal_each-IsWork ts (healed ++ t.pod ∷ []))

  after_plan-IsWork : (v : Option (List HealTarget) × S) → All IsWork (after_plan r v).calls
  after_plan-IsWork (none, s) = (tt, tt)
  after_plan-IsWork (some [], s) = (tt, tt)
  after_plan-IsWork (some (t ∷ ts), s) = (tt, heal_each-IsWork (t ∷ ts) [] s)

  after_escrow-IsWork :
      (triage : TriageResult) (v : Bool × S) → All IsWork (after_escrow r triage v).calls
  after_escrow-IsWork triage (true, s) = (tt, after_plan-IsWork (r.plan_targets triage s))
  after_escrow-IsWork triage (false, s) = (tt, tt)

  after_gate-IsWork :
      (triage : TriageResult) (v : Bool × S) → All IsWork (after_gate r triage v).calls
  after_gate-IsWork triage (true, s) = (tt, after_escrow-IsWork triage (r.escrow triage s))
  after_gate-IsWork triage (false, s) = (tt, tt)

  mutate-IsWork :
      (dry : Bool) (triage : TriageResult) (s : S) → All IsWork (mutate r dry triage s).calls
  mutate-IsWork true triage s = tt
  mutate-IsWork false triage s = after_gate-IsWork triage (r.safety_gate triage s)

  after_assess-IsWork : (v : Option TriageResult × S) → All IsWork (after_assess r v).calls
  after_assess-IsWork (none, s) = (tt, tt)
  after_assess-IsWork (some triage, s) = (tt, mutate-IsWork r.dry_run triage s)

  after_pre_assess-IsWork : (v : PreAssessed × S) → All IsWork (after_pre_assess r v).calls
  after_pre_assess-IsWork (proceed, s) = (tt, after_assess-IsWork (r.assess s))
  after_pre_assess-IsWork (stop, s) = (tt, tt)
  after_pre_assess-IsWork (pre_assess_error, s) = (tt, tt)

  -- The run was refused the lock and did nothing else, or it cleaned up and then released the lock.
  abbrev pub IsBracketed : Trace S → Type 0
  IsBracketed t =
      (t.calls ≡ did_lock false ∷ [])
      ⊎ ((body : List Call) × (last : S) × (t.calls
            ≡ did_lock true ∷ body ++ did_cleanup ∷ did_release ∷ [])
          × All IsWork body
          × (t.state ≡ r.release (r.cleanup last)))

  after_lock-IsBracketed : (v : Bool × S) → IsBracketed (after_lock r v)
  after_lock-IsBracketed (false, s) = inl refl
  after_lock-IsBracketed (true, s) =
      let t = after_pre_assess r (r.pre_assess s) in
      inr (t.calls, t.state, refl, after_pre_assess-IsWork (r.pre_assess s), refl)

  -- On every way out a run that was refused the lock made no other call; any other run took the lock
  -- once, made its last two calls to clean up and then to release the lock, and made these two
  -- calls nowhere else.
  pub run_repair-IsBracketed : (s : S) → IsBracketed (run_repair r s)
  unfolding run_repair
  run_repair-IsBracketed s = after_lock-IsBracketed (r.operation_lock s)

  -- Every call of a dry run between the lock and the deferred calls is a preview.
  abbrev pub IsDry : Trace S → Type 0
  IsDry t =
      (t.calls ≡ did_lock false ∷ [])
      ⊎ ((body : List Call) × (t.calls ≡ did_lock true ∷ body ++ did_cleanup ∷ did_release ∷ [])
          × All IsPreview body)

  after_assess-IsPreview :
      r.dry_run ≡ true → (v : Option TriageResult × S) → All IsPreview (after_assess r v).calls
  after_assess-IsPreview dry (none, s) = (tt, tt)
  after_assess-IsPreview dry (some triage, s) = rw dry (tt, tt)

  after_pre_assess-IsPreview :
      r.dry_run ≡ true → (v : PreAssessed × S) → All IsPreview (after_pre_assess r v).calls
  after_pre_assess-IsPreview dry (proceed, s) = (tt, after_assess-IsPreview dry (r.assess s))
  after_pre_assess-IsPreview dry (stop, s) = (tt, tt)
  after_pre_assess-IsPreview dry (pre_assess_error, s) = (tt, tt)

  after_lock-IsDry : r.dry_run ≡ true → (v : Bool × S) → IsDry (after_lock r v)
  after_lock-IsDry dry (false, s) = inl refl
  after_lock-IsDry dry (true, s) = inr (
    (after_pre_assess r (r.pre_assess s)).calls,
    refl,
    after_pre_assess-IsPreview dry (r.pre_assess s),
  )

  -- A dry run calls no hook but the lock, the pre-assessment, the assessment and the two deferred ones.
  pub run_repair-IsDry : r.dry_run ≡ true → (s : S) → IsDry (run_repair r s)
  unfolding run_repair
  run_repair-IsDry dry s = after_lock-IsDry dry (r.operation_lock s)
