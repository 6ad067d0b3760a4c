-- ===== src/PruneWal/Kept.antt =====
-- Which WAL a prune may delete (src/engine/prunewal/cnpg.go).
use hasteward.Prelude.{
  ℕ, ◌≤◌, ltb, ltb→le, String, Bool, true, false, ◌&&◌, ◌||◌, not, Option, none, some, List, [],
  ◌∷◌, str_eq, eq_iff, ◌≡◌, ◌≢◌, refl, sym, ap, ◌⊎◌, inl, inr, All, Bool-cases, ◌==◌,
}
use hasteward.Model.{
  AuthorityOutcome, provable, undeterminable, diverged, leader_not_primary, Classification,
  authoritative, recoverable, disposable, unknown, InstanceAssessment, TriageResult,
}
use hasteward.PruneWal.Lsn.{Codes, parse_lsn}
use hasteward.PruneWal.Gates.{
  is_authoritative, is_diverged, assert_relief_eligible, Cleared, ready_replicas_of, primary_gate,
  relief_gate, gate_by, prune_gate, replay_lsn, add_lagging, lagging, none_lag, lag_gate,
  assert_replicas_caught_up,
}

module _ (replay_of : String → Option Codes) where
  -- The replica answers with a position that is not behind the checkpoint.
  abbrev pub HasReplayed : ℕ → String → Type 0
  HasReplayed redo pod = (v : ℕ) × ((replay_lsn replay_of (replay_of pod) ≡ some v) × (redo ≤ v))

  -- Some replica is there, and all have replayed up to the checkpoint.
  abbrev pub HaveReplayed : List String → Codes → Type 0
  HaveReplayed pods redo_lsn =
      (pods ≢ []) × ((redo : ℕ) × ((parse_lsn redo_lsn ≡ some redo) × All (HasReplayed redo) pods))

  add_lagging-none :
      (pod : String) (redo : ℕ) (answer : Option ℕ) (rest : Option (List String))
      → add_lagging replay_of pod redo answer rest ≡ some []
      → ((v : ℕ) × ((answer ≡ some v) × (redo ≤ v))) × (rest ≡ some [])
  add_lagging-none pod redo none rest h = absurd (cc)
  add_lagging-none pod redo (some v) none h = absurd (cc)
  add_lagging-none pod redo (some v) (some pods) h = elim (Bool-cases (ltb v redo)) [
    | inl t ↦ let h' = rw t at h in absurd (cc)
    | inr f ↦ let h' = rw f at h in ((v, (refl, ltb→le v redo f)), h')
  ]

  lagging-none :
      (redo : ℕ) (pods : List String)
      → lagging replay_of redo pods ≡ some []
      → All (HasReplayed redo) pods
  unfolding lagging
  lagging-none redo [] h = tt
  lagging-none redo (pod ∷ pods) h =
      let (replayed, rest) = add_lagging-none pod redo _ _ h in
      (replayed, lagging-none redo pods rest)

  none_lag-passes :
      (force : Bool) (o : Option (List String))
      → none_lag replay_of force o ≡ true
      → (force ≡ true) ⊎ (o ≡ some [])
  none_lag-passes force none h = absurd (cc)
  none_lag-passes force (some []) h = inr refl
  none_lag-passes force (some (p ∷ ps)) h = inl h

  lag_gate-passes :
      (force : Bool) (pods : List String) (redo_lsn : Codes) (o : Option ℕ)
      → pods ≢ []
      → parse_lsn redo_lsn ≡ o
      → lag_gate replay_of force pods o ≡ true
      → (force ≡ true) ⊎ HaveReplayed pods redo_lsn
  lag_gate-passes force pods redo_lsn none full e h = absurd (cc)
  lag_gate-passes force pods redo_lsn (some redo) full e h =
      elim (none_lag-passes force (lagging replay_of redo pods) h) [
        | inl forced ↦ inl forced
        | inr n ↦ inr (full, (redo, (e, lagging-none redo pods n)))
      ]

  pub assert_replicas_caught_up-passes :
      (force : Bool) (pods : List String) (redo_lsn : Codes)
      → assert_replicas_caught_up replay_of force pods redo_lsn ≡ true
      → (force ≡ true) ⊎ HaveReplayed pods redo_lsn
  unfolding assert_replicas_caught_up
  assert_replicas_caught_up-passes force [] redo_lsn h = inl h
  assert_replicas_caught_up-passes force (pod ∷ pods) redo_lsn h =
      lag_gate-passes force (pod ∷ pods) redo_lsn (parse_lsn redo_lsn) (λ e. cc) refl h

-- The instance is the authority, or the operator forces a choice under divergence.
abbrev pub IsRelievable : TriageResult → InstanceAssessment → String → Bool → Type 0
IsRelievable r a target force =
    (r.data_comparison.most_advanced ≡ target)
    ⊎ ((a.classification ≡ authoritative)
        ⊎ ((r.data_comparison.authority ≡ diverged) × (force ≡ true)))

is_authoritative-true : (c : Classification) → is_authoritative c ≡ true → c ≡ authoritative
is_authoritative-true authoritative h = refl
is_authoritative-true recoverable h = absurd (cc)
is_authoritative-true disposable h = absurd (cc)
is_authoritative-true unknown h = absurd (cc)

is_diverged-true : (o : AuthorityOutcome) → is_diverged o ≡ true → o ≡ diverged
is_diverged-true diverged h = refl
is_diverged-true provable h = absurd (cc)
is_diverged-true undeterminable h = absurd (cc)
is_diverged-true leader_not_primary h = absurd (cc)

and_split : (a b : Bool) → (a && b) ≡ true → (a ≡ true) × (b ≡ true)
and_split true b h = (refl, h)
and_split false b h = absurd (cc)

or_split : (a b : Bool) → (a || b) ≡ true → (a ≡ true) ⊎ (b ≡ true)
or_split true b h = inl refl
or_split false b h = inr h

assert_relief_eligible-IsRelievable :
    (target : String) (a : InstanceAssessment) (r : TriageResult) (force : Bool)
    → assert_relief_eligible target a r force ≡ true
    → IsRelievable r a target force
unfolding assert_relief_eligible
assert_relief_eligible-IsRelievable target a r force h =
    elim (Bool-cases
      (str_eq r.data_comparison.most_advanced target || is_authoritative a.classification)) [
        | inl t ↦ elim (or_split (str_eq r.data_comparison.most_advanced target) _ t) [
          | inl named ↦ inl ((eq_iff _ _).0 named)
          | inr class ↦ inr (inl (is_authoritative-true a.classification class))
        ]
        | inr f ↦
            let (split, forced) = and_split _ force (rw f at h) in
            inr (inr (is_diverged-true r.data_comparison.authority split, forced))
      ]

-- What the gates promise of the instance that they clear.
abbrev pub IsCleared :
    TriageResult
    → InstanceAssessment
    → (primary target : String) → (force : Bool) → Cleared
    → Type 0
IsCleared r a primary target force c =
    (a.is_ready ≡ false)
    × (((c.verify_replicas ≡ true)
          × ((primary ≡ target) × (c.ready_replicas ≡ ready_replicas_of target r.assessments)))
        ⊎ ((c.verify_replicas ≡ false) × IsRelievable r a target force))

primary_gate-cleared :
    (none_ready force : Bool) (ready : List String) (c : Cleared)
    → primary_gate none_ready force ready ≡ some c
    → (c.verify_replicas ≡ true) × (c.ready_replicas ≡ ready)
primary_gate-cleared none_ready force ready c h = elim (Bool-cases (none_ready && not force)) [
  | inl t ↦ let h' = rw t at h in absurd (cc)
  | inr f ↦
      let h' : some (record { verify_replicas = true; ready_replicas = ready }) ≡ some c =
        rw f at h in
      let e = ap (λ (o : Option Cleared). elim o [ none ↦ c | some x ↦ x ]) h' in
      (ap (λ x. x.verify_replicas) (sym e), ap (λ x. x.ready_replicas) (sym e))
]

relief_gate-cleared :
    (eligible : Bool) (c : Cleared)
    → relief_gate eligible ≡ some c
    → (eligible ≡ true) × (c.verify_replicas ≡ false)
relief_gate-cleared true c h =
    let e = ap (λ (o : Option Cleared). elim o [ none ↦ c | some x ↦ x ]) h in
    (refl, ap (λ x. x.verify_replicas) (sym e))
relief_gate-cleared false c h = absurd (cc)

pub prune_gate-IsCleared :
    (r : TriageResult) (ready_count : ℕ) (a : InstanceAssessment) (primary target : String)
    → (force deadlock_recover : Bool) (c : Cleared)
    → prune_gate r ready_count a primary target force deadlock_recover ≡ some c
    → IsCleared r a primary target force c
unfolding prune_gate
prune_gate-IsCleared r ready_count a primary target force deadlock_recover c h =
    go a.is_ready (str_eq primary target && not deadlock_recover) refl refl h
  where
    go :
        (ready verify : Bool)
        → a.is_ready ≡ ready
        → (str_eq primary target && not deadlock_recover) ≡ verify
        → gate_by ready verify
            (primary_gate (ready_count == 0) force (ready_replicas_of target r.assessments))
            (relief_gate (assert_relief_eligible target a r force))
          ≡ some c
        → IsCleared r a primary target force c
    go true verify e f h = absurd (cc)
    go false true e f h =
        let (same, other) = and_split (str_eq primary target) _ f in
        let (verified, ready) = primary_gate-cleared (ready_count == 0) force _ c h in
        (e, inl (verified, ((eq_iff primary target).0 same, ready)))
    go false false e f h =
        let (eligible, skipped) = relief_gate-cleared _ c h in
        (e, inr (skipped, assert_relief_eligible-IsRelievable target a r force eligible))
