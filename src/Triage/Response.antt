-- ===== src/Triage/Response.antt =====
-- Which response a triage calls for, and what the deadlock breaker reads of it.
use hasteward.Prelude.{
  String, ◌≡◌, refl, sym, ap, subst, ◌≢◌, ◌⊎◌, inl, inr, Bool, true, false, List, [], ◌∷◌, Elem,
  if◌then◌else◌,
}
use hasteward.Model.{
  Classification, disposable, authoritative, recoverable, unknown, InstanceAssessment, TriageResult,
}
use hasteward.Triage.Verdict.{
  auto_heal, bootstrap_required, operator_required, TriageVerdict, has_join_target, heal_pods,
  respond, classify, disposable_pods,
}

Elem-heal_pods :
    (l : List InstanceAssessment) (pod : String)
    → Elem pod (heal_pods l)
    → (a : InstanceAssessment) × Elem a l × (a.pod ≡ pod) × (a.needs_heal ≡ true)
unfolding heal_pods
Elem-heal_pods [] pod m = elim m [ ]
Elem-heal_pods (a ∷ l) pod m = go a.needs_heal refl m (Elem-heal_pods l pod)
  where
    go :
        (t : Bool)
        → a.needs_heal ≡ t
        → Elem pod (if t then a.pod ∷ heal_pods l else heal_pods l)
        → (Elem pod (heal_pods l)
            → (c : InstanceAssessment) × Elem c l × (c.pod ≡ pod) × (c.needs_heal ≡ true))
        → (c : InstanceAssessment) × Elem c (a ∷ l) × (c.pod ≡ pod) × (c.needs_heal ≡ true)
    go true e (inl q) ih = (a, inl refl, sym q, e)
    go true e (inr m') ih = let (c, at, p, n) = ih m' in (c, inr at, p, n)
    go false e m' ih = let (c, at, p, n) = ih m' in (c, inr at, p, n)

kept-Elem :
    (a c : String) (t : Bool) (l : List String)
    → ((a ≡ c) × (t ≡ true)) ⊎ Elem a l
    → Elem a (if t then c ∷ l else l)
kept-Elem a c true l (inl w) = inl w.0
kept-Elem a c true l (inr m) = inr m
kept-Elem a c false l (inl w) = absurd (cc)
kept-Elem a c false l (inr m) = m

heal_pods-Elem :
    (l : List InstanceAssessment) (a : InstanceAssessment)
    → Elem a l
    → a.needs_heal ≡ true
    → Elem a.pod (heal_pods l)
unfolding heal_pods
heal_pods-Elem [] a m h = elim m [ ]
heal_pods-Elem (c ∷ l) a (inl e) h = kept-Elem a.pod c.pod c.needs_heal (heal_pods l) (
    inl (
      ap (λ (x : InstanceAssessment). x.pod) e,
      subst (λ (x : InstanceAssessment). x.needs_heal ≡ true) e h,
    ))
heal_pods-Elem (c ∷ l) a (inr m) h =
    kept-Elem a.pod c.pod c.needs_heal (heal_pods l) (inr (heal_pods-Elem l a m h))

-- Only a safe cluster with a node to join is healed, and then each pod of the list.
IsResponse : Bool → Bool → List String → TriageVerdict → Type 0
IsResponse join safe pods v =
    ((pod : String) → Elem pod v.targets → (join ≡ true) × (safe ≡ true) × Elem pod pods)
    × ((pod : String)
        → join ≡ true
        → safe ≡ true
        → Elem pod pods
        → (v.class ≡ auto_heal) × Elem pod v.targets)
    × (v.class ≡ auto_heal → v.targets ≢ [])
    × (safe ≡ false → v.class ≡ operator_required)
    × (safe ≡ true → join ≡ false → v.class ≡ bootstrap_required)

respond-IsResponse :
    (join safe : Bool) (pods : List String) → IsResponse join safe pods (respond join safe pods)
unfolding IsResponse
respond-IsResponse true true [] = (
  (λ pod m. elim m [ ]),
  (λ pod j s m. elim m [ ]),
  (λ e. absurd (cc)),
  (λ e. absurd (cc)),
  λ s j. absurd (cc),
)
respond-IsResponse true true (p ∷ ps) = (
  (λ pod m. (refl, refl, m)),
  (λ pod j s m. (refl, m)),
  (λ e q. absurd (cc)),
  (λ e. absurd (cc)),
  λ s j. absurd (cc),
)
respond-IsResponse true false pods = (
  (λ pod m. elim m [ ]),
  (λ pod j s m. absurd (cc)),
  (λ e. absurd (cc)),
  (λ e. refl),
  λ s j. absurd (cc),
)
respond-IsResponse false true pods = (
  (λ pod m. elim m [ ]),
  (λ pod j s m. absurd (cc)),
  (λ e. absurd (cc)),
  (λ e. absurd (cc)),
  λ s j. refl,
)
respond-IsResponse false false pods = (
  (λ pod m. elim m [ ]),
  (λ pod j s m. absurd (cc)),
  (λ e. absurd (cc)),
  (λ e. refl),
  λ s j. absurd (cc),
)

-- A pod is a target only if some node can be joined, healing is safe and an assessment of that pod
-- calls for it; and then every such pod is a target, under automatic healing, which always has a
-- target. Without safety the operator is asked, and a safe cluster with nothing to join needs a
-- bootstrap.
pub classify-IsResponse :
    (r : TriageResult)
    → ((pod : String)
        → Elem pod (classify r).targets
        → (has_join_target r ≡ true)
          × (r.data_comparison.safe_to_heal ≡ true)
          × ((a : InstanceAssessment) × Elem a r.assessments
              × (a.pod ≡ pod)
              × (a.needs_heal ≡ true)))
      × ((a : InstanceAssessment)
          → has_join_target r ≡ true
          → r.data_comparison.safe_to_heal ≡ true
          → Elem a r.assessments
          → a.needs_heal ≡ true
          → ((classify r).class ≡ auto_heal) × Elem a.pod (classify r).targets)
      × ((classify r).class ≡ auto_heal → (classify r).targets ≢ [])
      × (r.data_comparison.safe_to_heal ≡ false → (classify r).class ≡ operator_required)
      × (r.data_comparison.safe_to_heal ≡ true
          → has_join_target r ≡ false
          → (classify r).class ≡ bootstrap_required)
unfolding classify IsResponse
classify-IsResponse r =
    let (only, all, some_target, unsafe, boot) =
      respond-IsResponse (has_join_target r) r.data_comparison.safe_to_heal
        (heal_pods r.assessments) in
    (
      (λ pod m. let w = only pod m in (w.0, w.1, Elem-heal_pods r.assessments pod w.2)),
      (λ a j s m h. all a.pod j s (heal_pods-Elem r.assessments a m h)),
      some_target,
      unsafe,
      boot,
    )

pub Elem-disposable_pods :
    (l : List InstanceAssessment) (pod : String)
    → Elem pod (disposable_pods l)
    → (a : InstanceAssessment) × Elem a l × (a.pod ≡ pod) × (a.classification ≡ disposable)
unfolding disposable_pods
Elem-disposable_pods [] pod m = elim m [ ]
Elem-disposable_pods (a ∷ l) pod m = go a.classification refl m (Elem-disposable_pods l pod)
  where
    go :
        (k : Classification)
        → a.classification ≡ k
        → Elem pod (
            if (elim k [ disposable ↦ true | _ ↦ false ])
            then a.pod ∷ disposable_pods l
            else disposable_pods l)
        → (Elem pod (disposable_pods l)
            → (c : InstanceAssessment) × Elem c l × (c.pod ≡ pod) × (c.classification ≡ disposable))
        → (c : InstanceAssessment) × Elem c (a ∷ l)
          × (c.pod ≡ pod)
          × (c.classification ≡ disposable)
    go disposable e (inl q) ih = (a, inl refl, sym q, e)
    go disposable e (inr m') ih = let (c, at, p, n) = ih m' in (c, inr at, p, n)
    go authoritative e m' ih = let (c, at, p, n) = ih m' in (c, inr at, p, n)
    go recoverable e m' ih = let (c, at, p, n) = ih m' in (c, inr at, p, n)
    go unknown e m' ih = let (c, at, p, n) = ih m' in (c, inr at, p, n)
