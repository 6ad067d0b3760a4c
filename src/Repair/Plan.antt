-- ===== src/Repair/Plan.antt =====
-- src/engine/repair/plan.go, and `planPromotion` of src/engine/repair/cnpg_promote.go. The text of a
-- refusal, and of a target's reason, is left out.
use hasteward.Prelude.{
  String, Bool, true, false, not, Option, none, some, List, [], ◌∷◌, any, if◌then◌else◌, str_eq,
}
use hasteward.Model.{
  AuthorityOutcome, provable, undeterminable, diverged, leader_not_primary, InstanceAssessment,
  TriageResult,
}
use hasteward.Repair.Service.{HealTarget}

abbrev pub choose_target : Bool → Bool → String → Option HealTarget
choose_target true needs_heal pod = some (record { pod = pod; remediation = "restart" })
choose_target false true pod = some (record { pod = pod; remediation = "reseed" })
choose_target false false pod = none

abbrev pub target_of : InstanceAssessment → Option HealTarget
target_of a = choose_target (str_eq a.remediation "restart") a.needs_heal a.pod

abbrev pub add_target : Option HealTarget → List HealTarget → List HealTarget
add_target none ts = ts
add_target (some t) ts = t ∷ ts

unfoldable pub targets_of : List InstanceAssessment → List HealTarget
targets_of [] = []
targets_of (a ∷ as') = add_target (target_of a) (targets_of as')

-- `none` is the hard stop.
unfoldable pub build_untargeted_plan : TriageResult → Option (List HealTarget)
build_untargeted_plan r =
    if not r.data_comparison.safe_to_heal then none else some (targets_of r.assessments)

pub record PromotionPlan : Type 0 where
  pub authority : String
  pub rebuild : List String
  pub recovery_set : List String
  pub divergent : Bool

pub data PromotionRefusal : Type 0 where
  not_an_instance not_the_authority needs_force already_primary behind_primary unreadable :
      PromotionRefusal

pub data Promotion : Type 0 where
  promotes : PromotionPlan → Promotion
  promotion_refused : PromotionRefusal → Promotion

unfoldable pub others_of : String → List InstanceAssessment → List String
others_of target [] = []
others_of target (a ∷ as') =
    if str_eq a.pod target then others_of target as' else a.pod ∷ others_of target as'

abbrev pub new_promotion_plan : String → List String → Bool → PromotionPlan
new_promotion_plan authority others divergent = record {
  authority = authority;
  rebuild = others;
  recovery_set = authority ∷ others;
  divergent = divergent;
}

abbrev pub promote_under : AuthorityOutcome → String → String → List String → Bool → Promotion
promote_under leader_not_primary target most_advanced others force =
    if not (str_eq target most_advanced)
    then promotion_refused not_the_authority
    else promotes (new_promotion_plan target others false)
promote_under diverged target most_advanced others force =
    if not force
    then promotion_refused needs_force
    else promotes (new_promotion_plan target others true)
promote_under provable target most_advanced others force =
    if str_eq target most_advanced
    then promotion_refused already_primary
    else promotion_refused behind_primary
promote_under undeterminable target most_advanced others force = promotion_refused unreadable

-- The target is the pod name of the cluster's instance number.
unfoldable pub plan_promotion : TriageResult → String → Bool → Promotion
plan_promotion tr target force =
    if not (any (λ a. str_eq a.pod target) tr.assessments)
    then promotion_refused not_an_instance
    else promote_under tr.data_comparison.authority target tr.data_comparison.most_advanced
        (others_of target tr.assessments) force
