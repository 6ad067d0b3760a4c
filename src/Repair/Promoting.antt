-- ===== src/Repair/Promoting.antt =====
-- When an instance may be promoted (`planPromotion` of src/engine/repair/cnpg_promote.go).
use hasteward.Prelude.{
  String, Bool, true, false, List, [], ◌∷◌, ◌≡◌, refl, sym, ap, subst, ◌∙◌, ◌≢◌, ◌⊎◌, inl, inr,
  Elem, any, if◌then◌else◌, str_eq, eq_iff, Bool-cases,
}
use hasteward.Model.{
  AuthorityOutcome, provable, undeterminable, diverged, leader_not_primary, InstanceAssessment,
  TriageResult,
}
use hasteward.Repair.Plan.{
  PromotionPlan, Promotion, promotes, promotion_refused, others_of, new_promotion_plan,
  promote_under, plan_promotion,
}

-- The triage proves the target to be the leader, or the operator forces a survivor of a divergence.
abbrev pub IsChosen : TriageResult → String → Bool → PromotionPlan → Type 0
IsChosen tr target force p =
    ((tr.data_comparison.authority ≡ leader_not_primary)
      × (target ≡ tr.data_comparison.most_advanced)
      × (p.divergent ≡ false))
    ⊎ ((tr.data_comparison.authority ≡ diverged) × (force ≡ true) × (p.divergent ≡ true))

Elem-kept :
    (target pod x : String) (t : Bool) (rest : List String)
    → str_eq pod target ≡ t
    → (x ≡ pod) ⊎ ((x ≡ target) ⊎ Elem x rest)
    → (x ≡ target) ⊎ Elem x (if t then rest else pod ∷ rest)
Elem-kept target pod x true rest e (inl q) = inl (q ∙ (eq_iff pod target).0 e)
Elem-kept target pod x true rest e (inr w) = w
Elem-kept target pod x false rest e (inl q) = inr (inl q)
Elem-kept target pod x false rest e (inr (inl q)) = inl q
Elem-kept target pod x false rest e (inr (inr m)) = inr (inr m)

Elem-others_of :
    (target : String) (l : List InstanceAssessment) (a : InstanceAssessment)
    → Elem a l
    → (a.pod ≡ target) ⊎ Elem a.pod (others_of target l)
unfolding others_of
Elem-others_of target [] a m = elim m [ ]
Elem-others_of target (c ∷ l) a (inl e) =
    Elem-kept target c.pod a.pod (str_eq c.pod target) (others_of target l) refl
      (inl (ap (λ (x : InstanceAssessment). x.pod) e))
Elem-others_of target (c ∷ l) a (inr m) =
    Elem-kept target c.pod a.pod (str_eq c.pod target) (others_of target l) refl
      (inr (Elem-others_of target l a m))

kept-Elem :
    (target pod x : String) (t : Bool) (rest : List String)
    → str_eq pod target ≡ t
    → Elem x (if t then rest else pod ∷ rest)
    → ((x ≡ pod) × (pod ≢ target)) ⊎ Elem x rest
kept-Elem target pod x true rest e m = inr m
kept-Elem target pod x false rest e (inl q) =
    inl (q, λ same. let f = (eq_iff pod target).1 same in absurd (cc))
kept-Elem target pod x false rest e (inr m) = inr m

others_of-ne :
    (target : String) (l : List InstanceAssessment) (x : String)
    → Elem x (others_of target l)
    → x ≢ target
unfolding others_of
others_of-ne target [] x m = elim m [ ]
others_of-ne target (c ∷ l) x m =
    elim (kept-Elem target c.pod x (str_eq c.pod target) (others_of target l) refl m) [
      | inl w ↦ subst (λ y. y ≢ target) (sym w.0) w.1
      | inr m' ↦ others_of-ne target l x m'
    ]

any-instance :
    (target : String) (l : List InstanceAssessment)
    → any (λ a. str_eq a.pod target) l ≡ true
    → (a : InstanceAssessment) × Elem a l × (a.pod ≡ target)
any-instance target [] h = absurd (cc)
any-instance target (a ∷ l) h = elim (Bool-cases (str_eq a.pod target)) [
  | inl e ↦ (a, inl refl, (eq_iff _ _).0 e)
  | inr e ↦ let (c, m, q) = any-instance target l (rw e at h) in (c, inr m, q)
]

promotes-injective : {p q : PromotionPlan} → promotes p ≡ promotes q → p ≡ q
promotes-injective {p} h =
    ap (λ (x : Promotion). elim x [ promotes a ↦ a | promotion_refused r ↦ p ]) h

-- The plan for a target is the one that `newPromotionPlan` makes, for a choice that is allowed.
IsPlanFor : TriageResult → AuthorityOutcome → String → List String → Bool → PromotionPlan → Type 0
IsPlanFor tr o target others force p =
    (p.authority ≡ target)
    × (p.rebuild ≡ others)
    × (p.recovery_set ≡ target ∷ others)
    × (((o ≡ leader_not_primary)
          × (target ≡ tr.data_comparison.most_advanced)
          × (p.divergent ≡ false))
        ⊎ ((o ≡ diverged) × (force ≡ true) × (p.divergent ≡ true)))

fields_of :
    (target : String) (others : List String) (b : Bool) (p : PromotionPlan)
    → new_promotion_plan target others b ≡ p
    → (p.authority ≡ target)
      × (p.rebuild ≡ others)
      × (p.recovery_set ≡ target ∷ others)
      × (p.divergent ≡ b)
fields_of target others b p e = (
  ap (λ (x : PromotionPlan). x.authority) (sym e),
  ap (λ (x : PromotionPlan). x.rebuild) (sym e),
  ap (λ (x : PromotionPlan). x.recovery_set) (sym e),
  ap (λ (x : PromotionPlan). x.divergent) (sym e),
)

promote_under-IsPlanFor :
    (tr : TriageResult) (o : AuthorityOutcome) (target : String) (others : List String)
    (force : Bool) (p : PromotionPlan)
    → promote_under o target tr.data_comparison.most_advanced others force ≡ promotes p
    → IsPlanFor tr o target others force p
unfolding IsPlanFor
promote_under-IsPlanFor tr leader_not_primary target others force p h =
    elim (Bool-cases (str_eq target tr.data_comparison.most_advanced)) [
      | inl e ↦
          let h' : promotes (new_promotion_plan target others false) ≡ promotes p = rw e at h in
          let (a, b, c, d) = fields_of target others false p (promotes-injective h') in
          (a, b, c, inl (refl, (eq_iff _ _).0 e, d))
      | inr e ↦ absurd (let h' : promotion_refused _ ≡ promotes p = rw e at h in cc)
    ]
promote_under-IsPlanFor tr diverged target others true p h =
    let (a, b, c, d) = fields_of target others true p (promotes-injective h) in
    (a, b, c, inr (refl, refl, d))
promote_under-IsPlanFor tr diverged target others false p h = absurd (cc)
promote_under-IsPlanFor tr provable target others force p h =
    elim (Bool-cases (str_eq target tr.data_comparison.most_advanced)) [
      | inl e ↦ absurd (let h' : promotion_refused _ ≡ promotes p = rw e at h in cc)
      | inr e ↦ absurd (let h' : promotion_refused _ ≡ promotes p = rw e at h in cc)
    ]
promote_under-IsPlanFor tr undeterminable target others force p h = absurd (cc)

-- If a promotion is planned, then the target is an instance of the triage, and the triage proves it
-- to be the most advanced one while another is primary, or the cluster is diverged and the operator
-- forces it; the instances to rebuild do not hold the target, and the recovery set holds every
-- instance of the triage.
pub plan_promotion-IsChosen :
    (tr : TriageResult) (target : String) (force : Bool) (p : PromotionPlan)
    → plan_promotion tr target force ≡ promotes p
    → (p.authority ≡ target)
      × ((a : InstanceAssessment) × Elem a tr.assessments × (a.pod ≡ target))
      × IsChosen tr target force p
      × ((pod : String) → Elem pod p.rebuild → pod ≢ target)
      × ((a : InstanceAssessment) → Elem a tr.assessments → Elem a.pod p.recovery_set)
unfolding plan_promotion IsPlanFor
plan_promotion-IsChosen tr target force p h =
    elim (Bool-cases (any (λ a. str_eq a.pod target) tr.assessments)) [
      | inr e ↦ absurd (let h' : promotion_refused _ ≡ promotes p = rw e at h in cc)
      | inl e ↦
          let others = others_of target tr.assessments in
          let (is, rebuilt, set, chosen) =
            promote_under-IsPlanFor tr tr.data_comparison.authority target others force p
              (rw e at h) in
          (
            is,
            any-instance target tr.assessments e,
            chosen,
            (λ pod m. others_of-ne target tr.assessments pod (subst (Elem pod) rebuilt m)),
            (λ a m. subst (Elem a.pod) (sym set) (Elem-others_of target tr.assessments a m)),
          )
    ]
