-- ===== src/Repair/Aiming.antt =====
-- Which instance a repair by name may destroy (src/engine/repair/cnpg.go).
use hasteward.Prelude.{
  String, Bool, true, false, ◌&&◌, not, Option, none, some, List, [], ◌∷◌, str_eq, eq_iff, ◌≡◌, ◌≢◌,
  refl, sym, ap, subst, ◌⊎◌, inl, inr, Elem, Bool-cases,
}
use hasteward.Model.{InstanceAssessment, TriageResult}
use hasteward.Repair.Service.{HealTarget}
use hasteward.Repair.Aim.{
  Aimed, aim_refused, aimed_at, find_assessment, reseed_if, aim_by, aim_at_assessed, unless_guarded,
  guards_authority, plan_targeted_cnpg,
}

str_eq-differs : (x y : String) → str_eq x y ≡ false → x ≢ y
str_eq-differs x y e q = let e' = (eq_iff x y).1 q in absurd (cc)

-- The instance is assessed, and the target is a restart that the triage calls for, or a reseed of
-- what needs it while it is safe, each unless forced.
abbrev pub IsAllowed : TriageResult → String → Bool → InstanceAssessment → HealTarget → Type 0
IsAllowed r target force a t =
    ((t.remediation ≡ "restart") × ((a.remediation ≡ "restart") × (force ≡ false)))
    ⊎ ((t.remediation ≡ "reseed")
        × (((r.data_comparison.safe_to_heal ≡ true) ⊎ (force ≡ true))
            × ((a.needs_heal ≡ true) ⊎ (force ≡ true))))

abbrev pub IsAimed : TriageResult → String → String → Bool → HealTarget → Type 0
IsAimed r primary target force t =
    (t.pod ≡ target)
    × ((target ≢ primary)
        × (((r.data_comparison.safe_to_heal ≡ true)
              ⊎ ((r.data_comparison.most_advanced ≡ "")
                  ⊎ (target ≢ r.data_comparison.most_advanced)))
            × ((a : InstanceAssessment) × (Elem a r.assessments
                  × ((a.pod ≡ target) × IsAllowed r target force a t)))))

find_assessment-found :
    (pod : String) (l : List InstanceAssessment) (a : InstanceAssessment)
    → find_assessment pod l ≡ some a
    → Elem a l × (a.pod ≡ pod)
unfolding find_assessment
find_assessment-found pod [] a h = absurd (cc)
find_assessment-found pod (b ∷ l) a h = elim (Bool-cases (str_eq b.pod pod)) [
  | inl t ↦
      let h' : some b ≡ some a = rw t at h in
      let e : b ≡ a = ap (λ (o : Option InstanceAssessment). elim o [ none ↦ b | some x ↦ x ]) h' in
      (inl (sym e), subst (λ z. z.pod ≡ pod) e ((eq_iff b.pod pod).0 t))
  | inr f ↦ let (m, e) = find_assessment-found pod l a (rw f at h) in (inr m, e)
]

aimed-same : (t u : HealTarget) → aimed_at (t ∷ []) ≡ aimed_at (u ∷ []) → t ≡ u
aimed-same t u e =
    ap (λ (x : Aimed). elim x [ aim_refused z ↦ t | aimed_at l ↦ elim l [ [] ↦ t | v ∷ vs ↦ v ] ]) e

reseed_if-allowed :
    (safe needs force claim : Bool) (u t : HealTarget)
    → reseed_if safe needs force claim u ≡ aimed_at (t ∷ [])
    → (t ≡ u) × (((safe ≡ true) ⊎ (force ≡ true)) × ((needs ≡ true) ⊎ (force ≡ true)))
reseed_if-allowed true true true true u t h = (sym (aimed-same u t h), (inr refl, inr refl))
reseed_if-allowed true true true false u t h = absurd (cc)
reseed_if-allowed true false true true u t h = (sym (aimed-same u t h), (inr refl, inr refl))
reseed_if-allowed true false true false u t h = absurd (cc)
reseed_if-allowed false true true true u t h = (sym (aimed-same u t h), (inr refl, inr refl))
reseed_if-allowed false true true false u t h = absurd (cc)
reseed_if-allowed false false true true u t h = (sym (aimed-same u t h), (inr refl, inr refl))
reseed_if-allowed false false true false u t h = absurd (cc)
reseed_if-allowed true true false true u t h = (sym (aimed-same u t h), (inl refl, inl refl))
reseed_if-allowed true true false false u t h = absurd (cc)
reseed_if-allowed false needs false claim u t h = absurd (cc)
reseed_if-allowed true false false claim u t h = absurd (cc)

aim_by-IsAllowed :
    (r : TriageResult) (target : String) (force claim : Bool) (a : InstanceAssessment)
    → (t : HealTarget)
    → aim_by
        (str_eq a.remediation "restart" && not force)
        r.data_comparison.safe_to_heal
        a.needs_heal
        force
        claim
        target
      ≡ aimed_at (t ∷ [])
    → (t.pod ≡ target) × IsAllowed r target force a t
aim_by-IsAllowed r target force claim a t h = go (str_eq a.remediation "restart") force refl refl h
  where
    reseeds :
        reseed_if r.data_comparison.safe_to_heal a.needs_heal force claim
            (record { pod = target; remediation = "reseed" })
          ≡ aimed_at (t ∷ [])
        → (t.pod ≡ target) × IsAllowed r target force a t
    reseeds h =
        let (same, gates) =
          reseed_if-allowed r.data_comparison.safe_to_heal a.needs_heal force claim _ t h in
        (ap (λ z. z.pod) same, inr (ap (λ z. z.remediation) same, gates))

    go :
        (restart forced : Bool)
        → str_eq a.remediation "restart" ≡ restart
        → force ≡ forced
        → aim_by
            (restart && not forced)
            r.data_comparison.safe_to_heal
            a.needs_heal
            force
            claim
            target
          ≡ aimed_at (t ∷ [])
        → (t.pod ≡ target) × IsAllowed r target force a t
    go true false e f h =
        let same = aimed-same (record { pod = target; remediation = "restart" }) t h in
        (
          ap (λ z. z.pod) (sym same),
          inl (ap (λ z. z.remediation) (sym same), ((eq_iff _ _).0 e, f)),
        )
    go true true e f h = reseeds h
    go false forced e f h = reseeds h

aim_at_assessed-aimed :
    (r : TriageResult) (target : String) (force claim : Bool) (t : HealTarget)
    → (found : Option InstanceAssessment) → find_assessment target r.assessments ≡ found
    → aim_at_assessed r force claim target found ≡ aimed_at (t ∷ [])
    → (t.pod ≡ target)
      × ((a : InstanceAssessment) × (Elem a r.assessments
            × ((a.pod ≡ target) × IsAllowed r target force a t)))
aim_at_assessed-aimed r target force claim t none e h = absurd (cc)
aim_at_assessed-aimed r target force claim t (some a) e h =
    let (m, named) = find_assessment-found target r.assessments a e in
    let (pod, allowed) = aim_by-IsAllowed r target force claim a t h in
    (pod, (a, (m, (named, allowed))))

guards_authority-false :
    (safe : Bool) (target most_advanced : String)
    → (not safe && not (str_eq most_advanced "") && str_eq target most_advanced) ≡ false
    → (safe ≡ true) ⊎ ((most_advanced ≡ "") ⊎ (target ≢ most_advanced))
guards_authority-false true target most_advanced h = inl refl
guards_authority-false false target most_advanced h = elim (Bool-cases (str_eq most_advanced "")) [
  | inl t ↦ inr (inl ((eq_iff most_advanced "").0 t))
  | inr f ↦ let h' = rw f at h in inr (inr (str_eq-differs target most_advanced h'))
]

unless_guarded-aimed :
    (primary authority : Bool) (rest : Aimed) (ts : List HealTarget)
    → unless_guarded primary authority rest ≡ aimed_at ts
    → (primary ≡ false) × ((authority ≡ false) × (rest ≡ aimed_at ts))
unless_guarded-aimed false false rest ts h = (refl, (refl, h))
unless_guarded-aimed true authority rest ts h = absurd (cc)
unless_guarded-aimed false true rest ts h = absurd (cc)

-- If the plan of a CNPG repair that names its instance holds a target, then that target is the named
-- instance, it is not the primary, and not the instance that the triage calls the authority of a
-- cluster that is not safe to heal, forced or not. It is one of the assessed instances, and it is
-- restarted where the triage says so and nothing is forced, or reseeded, and then healing is safe or
-- forced, and the instance needs it or it is forced.
pub plan_targeted_cnpg-IsAimed :
    (r : TriageResult) (primary target : String) (force claim : Bool) (t : HealTarget)
    → plan_targeted_cnpg r primary target force claim ≡ aimed_at (t ∷ [])
    → IsAimed r primary target force t
unfolding plan_targeted_cnpg
plan_targeted_cnpg-IsAimed r primary target force claim t h =
    let (other, (unguarded, rest)) =
      unless_guarded-aimed (str_eq target primary) (guards_authority r target) _ (t ∷ []) h in
    let (pod, assessed) =
      aim_at_assessed-aimed r target force claim t (find_assessment target r.assessments) refl
        rest in
    (
      pod,
      (
        str_eq-differs target primary other,
        (
          guards_authority-false r.data_comparison.safe_to_heal target
              r.data_comparison.most_advanced unguarded,
          assessed,
        ),
      ),
    )
