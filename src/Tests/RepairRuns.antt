-- ===== src/Tests/RepairRuns.antt =====
-- Repairs of the cluster of the triage runs, whose state is a counter.
use hasteward.Prelude.{ℕ, suc, String, ◌≡◌, refl, ◌≢◌, true, false, inl, inr, some, [], ◌∷◌, Elem}
use hasteward.Model.{leader_not_primary, InstanceAssessment, TriageResult}
use hasteward.Repair.{
  HealTarget, proceed, Repairer, RepairResult, run_repair, heal_each, wind_up, PromotionPlan,
  plan_promotion, others_of, build_untargeted_plan, targets_of,
}
use hasteward.Repair.Lifecycle.{IsBracketed, run_repair-IsBracketed}
use hasteward.Repair.Healing.{IsGated, run_repair-IsGated}
use hasteward.Repair.Success.{IsComplete, run_repair-IsComplete}
use hasteward.Repair.Promoting.{IsChosen, plan_promotion-IsChosen}
use hasteward.Tests.TriageRuns.{frozen}

abbrev target : HealTarget
target = record { pod = "pg-2"; remediation = "reseed" }

-- Every hook succeeds.
abbrev engine : Repairer ℕ
engine = record {
  dry_run = false;
  operation_lock = λ n. (true, n);
  release = λ n. n;
  pre_assess = λ n. (proceed, n);
  assess = λ n. (some frozen, n);
  safety_gate = λ t n. (true, n);
  escrow = λ t n. (true, n);
  plan_targets = λ t n. (build_untargeted_plan t, n);
  heal = λ t n. (true, suc n);
  stabilize = λ n. n;
  reassess = λ n. (some frozen, n);
  verify_recovery = λ pods n. (true, n);
  cleanup = λ n. n;
}

abbrev preview : Repairer ℕ
preview = record engine { dry_run = true }

abbrev healed : RepairResult
healed = record { healed_instances = "pg-2" ∷ []; post_triage_result = some frozen }

one_heal : (run_repair engine 0).state ≡ 1
unfolding run_repair heal_each wind_up build_untargeted_plan targets_of
one_heal = refl

no_heal : (run_repair preview 0).state ≡ 0
unfolding run_repair
no_heal = refl

run_repair-IsBracketed_example : IsBracketed engine (run_repair engine 0)
run_repair-IsBracketed_example = run_repair-IsBracketed engine 0

run_repair-IsGated_example : IsGated target (run_repair engine 0).calls
unfolding run_repair heal_each wind_up build_untargeted_plan targets_of
run_repair-IsGated_example =
    run_repair-IsGated engine 0 target true (inr (inr (inr (inr (inr (inr (inl refl)))))))

run_repair-IsComplete_example : IsComplete healed (run_repair engine 0).calls
unfolding run_repair heal_each wind_up build_untargeted_plan targets_of
run_repair-IsComplete_example = run_repair-IsComplete engine 0 healed refl refl

-- The replica leads, and another instance is primary.
abbrev behind : TriageResult
behind = record frozen {
  data_comparison = record {
    most_advanced = "pg-2";
    safe_to_heal = false;
    authority = leader_not_primary;
    primary_members = [];
  };
}

abbrev plan : PromotionPlan
plan = record {
  authority = "pg-2";
  rebuild = "pg-1" ∷ [];
  recovery_set = "pg-2" ∷ "pg-1" ∷ [];
  divergent = false;
}

abbrev leader : String
leader = "pg-2"

plan_promotion-IsChosen_example :
    (plan.authority ≡ leader)
    × ((a : InstanceAssessment) × Elem a behind.assessments × (a.pod ≡ leader))
    × IsChosen behind leader false plan
    × ((pod : String) → Elem pod plan.rebuild → pod ≢ leader)
    × ((a : InstanceAssessment) → Elem a behind.assessments → Elem a.pod plan.recovery_set)
unfolding plan_promotion others_of
plan_promotion-IsChosen_example = plan_promotion-IsChosen behind leader false plan refl
