-- ===== src/Repair/Healing.antt =====
-- What a heal and a successful run guarantee about the phases before (src/engine/repair/service.go).
use hasteward.Prelude.{
  String, Bool, true, false, Option, none, some, List, [], ◌∷◌, ◌++◌, ◌≡◌, refl, ap, ◌⊎◌, inl, inr,
  Elem, map, Elem-append,
}
use hasteward.Model.{TriageResult}
use hasteward.Repair.Service.{
  HealTarget, PreAssessed, proceed, stop, pre_assess_error, Repairer, Call, did_lock, did_gate,
  did_escrow, did_release, did_cleanup, did_assess, did_pre_assess, did_plan, did_heal,
  RepairResult, Trace, verified, reassessed, wind_up, after_heal, heal_each, after_plan,
  after_escrow, after_gate, mutate, after_assess, after_pre_assess, after_lock, run_repair,
}

unfoldable pub pods : List HealTarget → List String
pods = map (λ t. t.pod)

-- The phases that a run has been through when it heals, in order, with their answers.
pub record IsGated (t : HealTarget) (calls : List Call) : Type 0 where
  pub plan : List HealTarget
  pub rest : List Call
  pub planned : Elem t plan
  pub order :
      calls
      ≡ did_lock true
        ∷ did_pre_assess proceed
        ∷ did_assess
        ∷ did_gate true
        ∷ did_escrow true
        ∷ did_plan (some plan)
        ∷ rest

module _ {S : Type 0} (r : Repairer S) where
  no_heal_in_verified :
      (t : HealTarget) (b : Bool) (res : RepairResult) (v : Bool × S)
      → Elem (did_heal t b) (verified res v).calls
      → ⊥
  no_heal_in_verified t b res (true, s) (inl e) = absurd (cc)
  no_heal_in_verified t b res (true, s) (inr m) = elim m [ ]
  no_heal_in_verified t b res (false, s) (inl e) = absurd (cc)
  no_heal_in_verified t b res (false, s) (inr m) = elim m [ ]

  no_heal_in_reassessed :
      (t : HealTarget) (b : Bool) (healed : List String) (v : Option TriageResult × S)
      → Elem (did_heal t b) (reassessed r healed v).calls
      → ⊥
  no_heal_in_reassessed t b [] (post, s) h = elim h [ ]
  no_heal_in_reassessed t b (x ∷ xs) (post, s) h =
      no_heal_in_verified t b _ (r.verify_recovery (x ∷ xs) s) h

  after_heal-Elem :
      (t u : HealTarget) (b : Bool) (v : Bool × S) (rest : S → Trace S)
      → Elem (did_heal t b) (after_heal u v rest).calls
      → (t ≡ u) ⊎ ((s : S) × Elem (did_heal t b) (rest s).calls)
  after_heal-Elem t u b (true, s) rest (inl e) = inl (cc)
  after_heal-Elem t u b (true, s) rest (inr m) = inr (s, m)
  after_heal-Elem t u b (false, s) rest (inl e) = inl (cc)
  after_heal-Elem t u b (false, s) rest (inr m) = elim m [ ]

  heal_each-Elem :
      (t : HealTarget) (b : Bool) (ts : List HealTarget) (healed : List String) (s : S)
      → Elem (did_heal t b) (heal_each r ts healed s).calls
      → Elem t ts
  unfolding heal_each wind_up
  heal_each-Elem t b [] healed s (inl e) = absurd (cc)
  heal_each-Elem t b [] healed s (inr (inl e)) = absurd (cc)
  heal_each-Elem t b [] healed s (inr (inr m)) =
      absurd (no_heal_in_reassessed t b healed (r.reassess (r.stabilize s)) m)
  heal_each-Elem t b (u ∷ ts) healed s m =
      elim (after_heal-Elem t u b (r.heal u s) (heal_each r ts (healed ++ u.pod ∷ [])) m) [
        | inl e ↦ inl e
        | inr (s', m') ↦ inr (heal_each-Elem t b ts (healed ++ u.pod ∷ []) s' m')
      ]

  after_plan-Gated :
      (t : HealTarget) (b : Bool) (v : Option (List HealTarget) × S)
      → Elem (did_heal t b) (after_plan r v).calls
      → (plan : List HealTarget) × (rest : List Call) × Elem t plan
        × ((after_plan r v).calls ≡ did_plan (some plan) ∷ rest)
  after_plan-Gated t b (none, s) (inl e) = absurd (cc)
  after_plan-Gated t b (none, s) (inr m) = elim m [ ]
  after_plan-Gated t b (some [], s) (inl e) = absurd (cc)
  after_plan-Gated t b (some [], s) (inr m) = elim m [ ]
  after_plan-Gated t b (some (u ∷ ts), s) (inl e) = absurd (cc)
  after_plan-Gated t b (some (u ∷ ts), s) (inr m) =
      (u ∷ ts, _, heal_each-Elem t b (u ∷ ts) [] s m, refl)

  after_escrow-Gated :
      (t : HealTarget) (b : Bool) (triage : TriageResult) (v : Bool × S)
      → Elem (did_heal t b) (after_escrow r triage v).calls
      → (plan : List HealTarget) × (rest : List Call) × Elem t plan
        × ((after_escrow r triage v).calls ≡ did_escrow true ∷ did_plan (some plan) ∷ rest)
  after_escrow-Gated t b triage (false, s) (inl e) = absurd (cc)
  after_escrow-Gated t b triage (false, s) (inr m) = elim m [ ]
  after_escrow-Gated t b triage (true, s) (inl e) = absurd (cc)
  after_escrow-Gated t b triage (true, s) (inr m) =
      let (plan, rest, at, e) = after_plan-Gated t b (r.plan_targets triage s) m in
      (plan, rest, at, ap (λ l. did_escrow true ∷ l) e)

  after_gate-Gated :
      (t : HealTarget) (b : Bool) (triage : TriageResult) (v : Bool × S)
      → Elem (did_heal t b) (after_gate r triage v).calls
      → (plan : List HealTarget) × (rest : List Call) × Elem t plan
        × ((after_gate r triage v).calls
            ≡ did_gate true ∷ did_escrow true ∷ did_plan (some plan) ∷ rest)
  after_gate-Gated t b triage (false, s) (inl e) = absurd (cc)
  after_gate-Gated t b triage (false, s) (inr m) = elim m [ ]
  after_gate-Gated t b triage (true, s) (inl e) = absurd (cc)
  after_gate-Gated t b triage (true, s) (inr m) =
      let (plan, rest, at, e) = after_escrow-Gated t b triage (r.escrow triage s) m in
      (plan, rest, at, ap (λ l. did_gate true ∷ l) e)

  mutate-Gated :
      (t : HealTarget) (b dry : Bool) (triage : TriageResult) (s : S)
      → Elem (did_heal t b) (mutate r dry triage s).calls
      → (plan : List HealTarget) × (rest : List Call) × Elem t plan
        × ((mutate r dry triage s).calls
            ≡ did_gate true ∷ did_escrow true ∷ did_plan (some plan) ∷ rest)
  mutate-Gated t b true triage s h = elim h [ ]
  mutate-Gated t b false triage s h = after_gate-Gated t b triage (r.safety_gate triage s) h

  after_assess-Gated :
      (t : HealTarget) (b : Bool) (v : Option TriageResult × S)
      → Elem (did_heal t b) (after_assess r v).calls
      → (plan : List HealTarget) × (rest : List Call) × Elem t plan
        × ((after_assess r v).calls
            ≡ did_assess ∷ did_gate true ∷ did_escrow true ∷ did_plan (some plan) ∷ rest)
  after_assess-Gated t b (none, s) (inl e) = absurd (cc)
  after_assess-Gated t b (none, s) (inr m) = elim m [ ]
  after_assess-Gated t b (some triage, s) (inl e) = absurd (cc)
  after_assess-Gated t b (some triage, s) (inr m) =
      let (plan, rest, at, e) = mutate-Gated t b r.dry_run triage s m in
      (plan, rest, at, ap (λ l. did_assess ∷ l) e)

  after_pre_assess-Gated :
      (t : HealTarget) (b : Bool) (v : PreAssessed × S)
      → Elem (did_heal t b) (after_pre_assess r v).calls
      → (plan : List HealTarget) × (rest : List Call) × Elem t plan
        × ((after_pre_assess r v).calls
            ≡ did_pre_assess proceed
              ∷ did_assess
              ∷ did_gate true
              ∷ did_escrow true
              ∷ did_plan (some plan)
              ∷ rest)
  after_pre_assess-Gated t b (proceed, s) (inl e) = absurd (cc)
  after_pre_assess-Gated t b (proceed, s) (inr m) =
      let (plan, rest, at, e) = after_assess-Gated t b (r.assess s) m in
      (plan, rest, at, ap (λ l. did_pre_assess proceed ∷ l) e)
  after_pre_assess-Gated t b (stop, s) (inl e) = absurd (cc)
  after_pre_assess-Gated t b (stop, s) (inr m) = elim m [ ]
  after_pre_assess-Gated t b (pre_assess_error, s) (inl e) = absurd (cc)
  after_pre_assess-Gated t b (pre_assess_error, s) (inr m) = elim m [ ]

  after_lock-IsGated :
      (t : HealTarget) (b : Bool) (v : Bool × S)
      → Elem (did_heal t b) (after_lock r v).calls
      → IsGated t (after_lock r v).calls
  after_lock-IsGated t b (false, s) (inl e) = absurd (cc)
  after_lock-IsGated t b (false, s) (inr m) = elim m [ ]
  after_lock-IsGated t b (true, s) (inl e) = absurd (cc)
  after_lock-IsGated t b (true, s) (inr m) =
      elim (Elem-append _ (after_pre_assess r (r.pre_assess s)).calls _ m) [
        | inl m' ↦
            let (plan, rest, at, e) = after_pre_assess-Gated t b (r.pre_assess s) m' in
            record {
              plan = plan;
              rest = rest ++ did_cleanup ∷ did_release ∷ [];
              planned = at;
              order = ap (λ l. did_lock true ∷ l ++ did_cleanup ∷ did_release ∷ []) e;
            }
        | inr (inl e) ↦ absurd (cc)
        | inr (inr (inl e)) ↦ absurd (cc)
        | inr (inr (inr z)) ↦ elim z [ ]
      ]

  -- If a run calls the heal of a target, then before it, in this order, the lock was taken, the
  -- pre-assessment let the run proceed, the assessment was made, the safety gate passed, the escrow
  -- succeeded, and the plan was made and holds the target; nothing else was called before the plan.
  pub run_repair-IsGated :
      (s : S) (t : HealTarget) (b : Bool)
      → Elem (did_heal t b) (run_repair r s).calls
      → IsGated t (run_repair r s).calls
  unfolding run_repair
  run_repair-IsGated s t b h = after_lock-IsGated t b (r.operation_lock s) h
