-- ===== src/Repair/Success.antt =====
-- What a run that returns no error has done (src/engine/repair/service.go).
use hasteward.Prelude.{
  String, Bool, true, false, Option, none, some, List, [], ◌∷◌, ◌++◌, ◌≡◌, refl, sym, ap, subst,
  ◌∙◌, ◌⊎◌, inl, inr, Elem, Elem-append_left, append-nil, append_assoc,
}
use hasteward.Model.{TriageResult}
use hasteward.Repair.Service.{
  HealTarget, PreAssessed, proceed, stop, pre_assess_error, Repairer, Call, did_plan, did_verify,
  did_pre_assess, RepairResult, Trace, verified, reassessed, wind_up, after_heal, heal_each,
  after_plan, after_escrow, after_gate, mutate, after_assess, after_pre_assess, after_lock,
  run_repair,
}
use hasteward.Repair.Healing.{pods}

-- The last verification of the run passed for exactly these instances.
abbrev pub IsVerified : List String → List Call → Type 0
IsVerified healed calls = Elem (did_verify healed true) calls

-- Nothing was healed, or all of a plan was, and the verification passed for it.
abbrev pub IsComplete : RepairResult → List Call → Type 0
IsComplete res calls =
    (res.healed_instances ≡ [])
    ⊎ ((plan : List HealTarget) × Elem (did_plan (some plan)) calls
        × (res.healed_instances ≡ pods plan)
        × IsVerified res.healed_instances calls)

IsComplete-later :
    (res : RepairResult) (c : Call) (calls : List Call)
    → IsComplete res calls
    → IsComplete res (c ∷ calls)
IsComplete-later res c calls (inl e) = inl e
IsComplete-later res c calls (inr (plan, at, e, v)) = inr (plan, inr at, e, inr v)

nothing-IsComplete :
    (post : Option TriageResult) (res : RepairResult) (calls : List Call)
    → some (record { healed_instances = []; post_triage_result = post }) ≡ some res
    → IsComplete res calls
nothing-IsComplete post res calls h = inl (cc)

module _ {S : Type 0} (r : Repairer S) where
  verified-IsVerified :
      (full res : RepairResult) (v : Bool × S)
      → (verified full v).result ≡ some res
      → (verified full v).error ≡ none
      → (res.healed_instances ≡ full.healed_instances)
        × IsVerified res.healed_instances (verified full v).calls
  verified-IsVerified full res (true, s) h e =
      let same : res ≡ full = cc in
      (
        ap (λ (x : RepairResult). x.healed_instances) same,
        inl (ap (λ (x : RepairResult). did_verify x.healed_instances true) same),
      )
  verified-IsVerified full res (false, s) h e = absurd (cc)

  reassessed-IsVerified :
      (healed : List String) (res : RepairResult) (v : Option TriageResult × S)
      → (reassessed r healed v).result ≡ some res
      → (reassessed r healed v).error ≡ none
      → (res.healed_instances ≡ healed)
        × ((healed ≡ []) ⊎ IsVerified res.healed_instances (reassessed r healed v).calls)
  reassessed-IsVerified [] res (post, s) h e = (cc, inl refl)
  reassessed-IsVerified (x ∷ xs) res (post, s) h e =
      let (same, v) = verified-IsVerified _ res (r.verify_recovery (x ∷ xs) s) h e in (same, inr v)

  -- What is left of a plan, and the instances that were healed before.
  IsFinished : List String → RepairResult → Trace S → Type 0
  IsFinished all res t =
      (res.healed_instances ≡ all) × ((all ≡ []) ⊎ IsVerified res.healed_instances t.calls)

  after_heal-IsFinished :
      (all : List String) (res : RepairResult) (t : HealTarget) (v : Bool × S) (rest : S → Trace S)
      → ((s : S) → (rest s).result ≡ some res → (rest s).error ≡ none → IsFinished all res (rest s))
      → (after_heal t v rest).result ≡ some res
      → (after_heal t v rest).error ≡ none
      → IsFinished all res (after_heal t v rest)
  unfolding IsFinished
  after_heal-IsFinished all res t (true, s) rest go h e =
      let (same, w) = go s h e in elim w [ inl z ↦ (same, inl z) | inr v ↦ (same, inr (inr v)) ]
  after_heal-IsFinished all res t (false, s) rest go h e = absurd (cc)

  heal_each-IsFinished :
      (ts : List HealTarget) (healed : List String) (res : RepairResult) (s : S)
      → (heal_each r ts healed s).result ≡ some res
      → (heal_each r ts healed s).error ≡ none
      → IsFinished (healed ++ pods ts) res (heal_each r ts healed s)
  unfolding heal_each wind_up IsFinished pods
  heal_each-IsFinished [] healed res s h e =
      let (same, w) = reassessed-IsVerified healed res (r.reassess (r.stabilize s)) h e in
      elim w [
        | inl z ↦ (same ∙ sym (append-nil healed), inl (append-nil healed ∙ z))
        | inr v ↦ (same ∙ sym (append-nil healed), inr (inr (inr v)))
      ]
  heal_each-IsFinished (t ∷ ts) healed res s h e =
      after_heal-IsFinished (healed ++ t.pod ∷ pods ts) res t (r.heal t s)
        (heal_each r ts (healed ++ t.pod ∷ []))
        (λ s' h' e'.
          subst (λ l. IsFinished l res (heal_each r ts (healed ++ t.pod ∷ []) s'))
            (append_assoc healed (t.pod ∷ []) (pods ts))
            (heal_each-IsFinished ts (healed ++ t.pod ∷ []) res s' h' e'))
        h e

  after_plan-IsComplete :
      (res : RepairResult) (v : Option (List HealTarget) × S)
      → (after_plan r v).result ≡ some res
      → (after_plan r v).error ≡ none
      → IsComplete res (after_plan r v).calls
  unfolding IsFinished pods
  after_plan-IsComplete res (none, s) h e = absurd (cc)
  after_plan-IsComplete res (some [], s) h e =
      nothing-IsComplete none res (did_plan (some []) ∷ []) h
  after_plan-IsComplete res (some (t ∷ ts), s) h e =
      let (same, w) = heal_each-IsFinished (t ∷ ts) [] res s h e in
      elim w [ inl z ↦ inl (same ∙ z) | inr v ↦ inr (t ∷ ts, inl refl, same, inr v) ]

  after_escrow-IsComplete :
      (res : RepairResult) (triage : TriageResult) (v : Bool × S)
      → (after_escrow r triage v).result ≡ some res
      → (after_escrow r triage v).error ≡ none
      → IsComplete res (after_escrow r triage v).calls
  after_escrow-IsComplete res triage (false, s) h e = absurd (cc)
  after_escrow-IsComplete res triage (true, s) h e =
      IsComplete-later res _ _ (after_plan-IsComplete res (r.plan_targets triage s) h e)

  after_gate-IsComplete :
      (res : RepairResult) (triage : TriageResult) (v : Bool × S)
      → (after_gate r triage v).result ≡ some res
      → (after_gate r triage v).error ≡ none
      → IsComplete res (after_gate r triage v).calls
  after_gate-IsComplete res triage (false, s) h e = absurd (cc)
  after_gate-IsComplete res triage (true, s) h e =
      IsComplete-later res _ _ (after_escrow-IsComplete res triage (r.escrow triage s) h e)

  mutate-IsComplete :
      (res : RepairResult) (dry : Bool) (triage : TriageResult) (s : S)
      → (mutate r dry triage s).result ≡ some res
      → (mutate r dry triage s).error ≡ none
      → IsComplete res (mutate r dry triage s).calls
  mutate-IsComplete res true triage s h e = nothing-IsComplete none res [] h
  mutate-IsComplete res false triage s h e =
      after_gate-IsComplete res triage (r.safety_gate triage s) h e

  after_assess-IsComplete :
      (res : RepairResult) (v : Option TriageResult × S)
      → (after_assess r v).result ≡ some res
      → (after_assess r v).error ≡ none
      → IsComplete res (after_assess r v).calls
  after_assess-IsComplete res (none, s) h e = absurd (cc)
  after_assess-IsComplete res (some triage, s) h e =
      IsComplete-later res _ _ (mutate-IsComplete res r.dry_run triage s h e)

  after_pre_assess-IsComplete :
      (res : RepairResult) (v : PreAssessed × S)
      → (after_pre_assess r v).result ≡ some res
      → (after_pre_assess r v).error ≡ none
      → IsComplete res (after_pre_assess r v).calls
  after_pre_assess-IsComplete res (proceed, s) h e =
      IsComplete-later res _ _ (after_assess-IsComplete res (r.assess s) h e)
  after_pre_assess-IsComplete res (stop, s) h e =
      nothing-IsComplete none res (did_pre_assess stop ∷ []) h
  after_pre_assess-IsComplete res (pre_assess_error, s) h e = absurd (cc)

  IsComplete-append :
      (res : RepairResult) (xs ys : List Call) → IsComplete res xs → IsComplete res (xs ++ ys)
  IsComplete-append res xs ys (inl e) = inl e
  IsComplete-append res xs ys (inr (plan, at, e, v)) =
      inr (plan, Elem-append_left _ xs ys at, e, Elem-append_left _ xs ys v)

  after_lock-IsComplete :
      (res : RepairResult) (v : Bool × S)
      → (after_lock r v).result ≡ some res
      → (after_lock r v).error ≡ none
      → IsComplete res (after_lock r v).calls
  after_lock-IsComplete res (false, s) h e = absurd (cc)
  after_lock-IsComplete res (true, s) h e = IsComplete-later res _ _ (
      IsComplete-append res (after_pre_assess r (r.pre_assess s)).calls _
        (after_pre_assess-IsComplete res (r.pre_assess s) h e))

  -- If a run returns a result and no error, then it healed nothing, or it made a plan, the healed
  -- instances are those of the plan in its order, and the verification passed for exactly them.
  pub run_repair-IsComplete :
      (s : S) (res : RepairResult)
      → (run_repair r s).result ≡ some res
      → (run_repair r s).error ≡ none
      → IsComplete res (run_repair r s).calls
  unfolding run_repair
  run_repair-IsComplete s res h e = after_lock-IsComplete res (r.operation_lock s) h e
