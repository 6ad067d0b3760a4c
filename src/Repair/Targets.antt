-- ===== src/Repair/Targets.antt =====
-- What is healed, and what may be promoted (src/engine/repair/plan.go and cnpg_promote.go).
use hasteward.Prelude.{
  String, Bool, true, false, not, Option, none, some, List, [], ◌∷◌, ◌≡◌, refl, sym, ap, subst, ◌∙◌,
  ◌≢◌, ◌⊎◌, inl, inr, Elem, if◌then◌else◌, str_eq, eq_iff, Bool-cases,
}
use hasteward.Model.{InstanceAssessment, TriageResult}
use hasteward.Repair.Service.{HealTarget}
use hasteward.Repair.Plan.{choose_target, target_of, add_target, targets_of, build_untargeted_plan}

str_eq-false : (x y : String) → str_eq x y ≡ false → x ≢ y
str_eq-false x y e q = let e' = (eq_iff x y).1 q in absurd (cc)

false-str_eq : (x y : String) → x ≢ y → str_eq x y ≡ false
false-str_eq x y ne = elim (Bool-cases (str_eq x y)) [
  | inl e ↦ absurd (ne ((eq_iff x y).0 e))
  | inr e ↦ e
]

-- The instance calls for this target: a restart where the triage says so, else a reseed.
pub IsTarget : InstanceAssessment → HealTarget → Type 0
IsTarget a t =
    (t.pod ≡ a.pod)
    × (((a.remediation ≡ "restart") × (t.remediation ≡ "restart"))
        ⊎ ((a.remediation ≢ "restart") × (a.needs_heal ≡ true) × (t.remediation ≡ "reseed")))

some-same : {A : Type 0} {x y : A} → some x ≡ some y → x ≡ y
some-same {A} {x} e = ap (λ (o : Option A). elim o [ none ↦ x | some a ↦ a ]) e

target_of-IsTarget : (a : InstanceAssessment) (t : HealTarget) → target_of a ≡ some t → IsTarget a t
unfolding IsTarget
target_of-IsTarget a t h = go (str_eq a.remediation "restart") a.needs_heal refl refl h
  where
    go :
        (restart heal : Bool)
        → str_eq a.remediation "restart" ≡ restart
        → a.needs_heal ≡ heal
        → choose_target restart heal a.pod ≡ some t
        → (t.pod ≡ a.pod)
          × (((a.remediation ≡ "restart") × (t.remediation ≡ "restart"))
              ⊎ ((a.remediation ≢ "restart") × (a.needs_heal ≡ true) × (t.remediation ≡ "reseed")))
    go true heal e f q =
        let same = some-same (sym q) in
        (
          ap (λ (x : HealTarget). x.pod) same,
          inl ((eq_iff _ _).0 e, ap (λ (x : HealTarget). x.remediation) same),
        )
    go false true e f q =
        let same = some-same (sym q) in
        (
          ap (λ (x : HealTarget). x.pod) same,
          inr (str_eq-false _ _ e, f, ap (λ (x : HealTarget). x.remediation) same),
        )
    go false false e f q = absurd (cc)

same_target : (t u : HealTarget) → t.pod ≡ u.pod → t.remediation ≡ u.remediation → t ≡ u
same_target t u p q = cc

IsTarget-target_of : (a : InstanceAssessment) (t : HealTarget) → IsTarget a t → target_of a ≡ some t
unfolding IsTarget
IsTarget-target_of a t (pod, inl (restart, rem)) =
    ap (λ b. choose_target b a.needs_heal a.pod) ((eq_iff a.remediation "restart").1 restart)
    ∙ ap some (same_target _ t (sym pod) (sym rem))
IsTarget-target_of a t (pod, inr (other, heal, rem)) =
    ap (λ b. choose_target b a.needs_heal a.pod) (false-str_eq a.remediation "restart" other)
    ∙ ap (λ b. choose_target false b a.pod) heal
    ∙ ap some (same_target _ t (sym pod) (sym rem))

add_target-Elem :
    (t : HealTarget) (o : Option HealTarget) (ts : List HealTarget)
    → Elem t (add_target o ts)
    → (o ≡ some t) ⊎ Elem t ts
add_target-Elem t none ts m = inr m
add_target-Elem t (some u) ts (inl e) = inl (ap some (sym e))
add_target-Elem t (some u) ts (inr m) = inr m

Elem-add_target :
    (t : HealTarget) (o : Option HealTarget) (ts : List HealTarget)
    → (o ≡ some t) ⊎ Elem t ts
    → Elem t (add_target o ts)
Elem-add_target t none ts (inl e) = absurd (cc)
Elem-add_target t none ts (inr m) = m
Elem-add_target t (some u) ts (inl e) = inl (some-same (sym e))
Elem-add_target t (some u) ts (inr m) = inr m

targets_of-IsTarget :
    (l : List InstanceAssessment) (t : HealTarget)
    → Elem t (targets_of l)
    → (a : InstanceAssessment) × Elem a l × IsTarget a t
unfolding targets_of
targets_of-IsTarget [] t m = elim m [ ]
targets_of-IsTarget (a ∷ l) t m = elim (add_target-Elem t (target_of a) (targets_of l) m) [
  | inl e ↦ (a, inl refl, target_of-IsTarget a t e)
  | inr m' ↦ let (c, at, is) = targets_of-IsTarget l t m' in (c, inr at, is)
]

IsTarget-targets_of :
    (l : List InstanceAssessment) (a : InstanceAssessment) (t : HealTarget)
    → Elem a l
    → IsTarget a t
    → Elem t (targets_of l)
unfolding targets_of
IsTarget-targets_of [] a t m is = elim m [ ]
IsTarget-targets_of (c ∷ l) a t (inl e) is =
    Elem-add_target t (target_of c) (targets_of l)
      (inl (IsTarget-target_of c t (subst (λ x. IsTarget x t) e is)))
IsTarget-targets_of (c ∷ l) a t (inr m) is =
    Elem-add_target t (target_of c) (targets_of l) (inr (IsTarget-targets_of l a t m is))

-- If the untargeted plan is made, then the triage calls healing safe, each target is one that some
-- instance calls for, and each target that an instance calls for is in the plan: an instance that
-- a restart remedies is restarted and not reseeded for that, and of the others those that need
-- healing are reseeded.
pub build_untargeted_plan-IsTarget :
    (r : TriageResult) (ts : List HealTarget)
    → build_untargeted_plan r ≡ some ts
    → (r.data_comparison.safe_to_heal ≡ true)
      × ((t : HealTarget)
          → Elem t ts
          → (a : InstanceAssessment) × Elem a r.assessments × IsTarget a t)
      × ((a : InstanceAssessment) (t : HealTarget)
          → Elem a r.assessments
          → IsTarget a t
          → Elem t ts)
unfolding build_untargeted_plan
build_untargeted_plan-IsTarget r ts h = go r.data_comparison.safe_to_heal refl h
  where
    go :
        (safe : Bool)
        → r.data_comparison.safe_to_heal ≡ safe
        → (if not safe then none else some (targets_of r.assessments)) ≡ some ts
        → (r.data_comparison.safe_to_heal ≡ true)
          × ((t : HealTarget)
              → Elem t ts
              → (a : InstanceAssessment) × Elem a r.assessments × IsTarget a t)
          × ((a : InstanceAssessment) (t : HealTarget)
              → Elem a r.assessments
              → IsTarget a t
              → Elem t ts)
    go false e q = absurd (cc)
    go true e q =
        let same = some-same q in
        (
          e,
          λ t m. targets_of-IsTarget r.assessments t (subst (Elem t) (sym same) m),
          λ a t m is. subst (Elem t) same (IsTarget-targets_of r.assessments a t m is),
        )
