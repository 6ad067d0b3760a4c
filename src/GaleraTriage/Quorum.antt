-- ===== src/GaleraTriage/Quorum.antt =====
-- What "safe to heal" means for the data of a Galera cluster (src/engine/triage/galera.go).
use hasteward.Prelude.{
  select-none, append-none, map-none, any-Elem, pos, int_ltb, find, String, Bool, true, false, ◌&&◌,
  not, List, [], ◌∷◌, str_eq, eq_iff, ◌≡◌, refl, ◌∙◌, ◌⊎◌, inl, inr, Elem, All, All-intro,
  Elem-select_intro, Bool-cases,
}
use hasteward.Triage.{is_provable, is_empty, new_authority_comparison}
use hasteward.GaleraTriage.Data.{Grastate, WsrepReading, EffectiveSeqno, GaleraTriageData}
use hasteward.GaleraTriage.Comparison.{
  node_canonical_uuid, usable, status_alarms, non_primary, is_ahead, ahead_of, primary_best,
  uuid_set, uuid_evidence, split_brain, quorum_uuid, position_read, lags, unread_nodes,
  unread_blocking, authority_by, clean_quorum, galera_instance_comparison,
}
use hasteward.GaleraTriage.Lineage.{IsOneLineage, uuid_set-IsOneLineage}

-- A reported component status is the Primary one.
abbrev pub IsCalm : String × WsrepReading → Type 0
IsCalm e = (e.1.cluster_status ≡ "") ⊎ (e.1.cluster_status ≡ "Primary")

-- A known positive position outside the Primary component does not exceed the best inside it.
abbrev pub IsNotAhead : GaleraTriageData → String × EffectiveSeqno → Type 0
IsNotAhead d e =
    Elem e.0 d.primary_members
    ⊎ ((e.1.known ≡ false)
        ⊎ ((int_ltb (primary_best d) e.1.value ≡ false) ⊎ (int_ltb (pos 0) e.1.value ≡ false)))

-- The node's position was read, or the node is of the identity of a member of the Primary component.
abbrev pub IsPlaced : GaleraTriageData → Grastate → Type 0
IsPlaced d g =
    (position_read (find g.pod d.effective_seqnos) ≡ true)
    ⊎ ((pm : String) × (Elem pm d.primary_members
          × ((usable (node_canonical_uuid d pm) ≡ true)
              × (node_canonical_uuid d g.pod ≡ node_canonical_uuid d pm))))

abbrev pub IsHealable : GaleraTriageData → Type 0
IsHealable d =
    IsOneLineage d
    × (All IsCalm d.wsrep_map
        × (((d.primary_members ≡ []) ⊎ All (IsNotAhead d) d.effective_seqnos)
            × All (IsPlaced d) d.grastate_data))

status_alarms-calm :
    (status : String) → status_alarms status ≡ false → (status ≡ "") ⊎ (status ≡ "Primary")
status_alarms-calm status h = elim (Bool-cases (str_eq status "")) [
  | inl t ↦ inl ((eq_iff status "").0 t)
  | inr f ↦ elim (Bool-cases (str_eq status "Primary")) [
    | inl t ↦ inr ((eq_iff status "Primary").0 t)
    | inr g ↦ let h' = rw (f, g) at h in absurd (cc)
  ]
]

non_primary-IsCalm : (m : List (String × WsrepReading)) → non_primary m ≡ [] → All IsCalm m
unfolding non_primary
non_primary-IsCalm [] h = tt
non_primary-IsCalm ((name, ws) ∷ m) h = elim (Bool-cases (status_alarms ws.cluster_status)) [
  | inl t ↦ let h' = rw t at h in absurd (cc)
  | inr f ↦ let h' = rw f at h in (status_alarms-calm _ f, non_primary-IsCalm m h')
]

and_false : (a b : Bool) → (a && b) ≡ false → (a ≡ false) ⊎ (b ≡ false)
and_false true b h = inr h
and_false false b h = inl refl

not-false : (a : Bool) → not a ≡ false → a ≡ true
not-false true h = refl
not-false false h = absurd (cc)

is_ahead-false :
    (d : GaleraTriageData) (e : String × EffectiveSeqno)
    → is_ahead d.primary_members (primary_best d) e ≡ false
    → IsNotAhead d e
is_ahead-false d (name, es) h = elim (and_false _ (int_ltb (pos 0) es.value) h) [
  | inr z ↦ inr (inr (inr z))
  | inl r ↦ elim (and_false _ (int_ltb (primary_best d) es.value) r) [
    | inr z ↦ inr (inr (inl z))
    | inl s ↦ elim (and_false _ es.known s) [
      | inr z ↦ inr (inl z)
      | inl n ↦ inl (any-Elem name d.primary_members (not-false _ n))
    ]
  ]
]

is_empty-none : {A : Type 0} (l : List A) → is_empty l ≡ true → l ≡ []
is_empty-none [] h = refl
is_empty-none (x ∷ l) h = absurd (cc)

ahead_of-none :
    (d : GaleraTriageData)
    → ahead_of d.primary_members (primary_best d) d.effective_seqnos ≡ []
    → (d.primary_members ≡ []) ⊎ All (IsNotAhead d) d.effective_seqnos
unfolding ahead_of
ahead_of-none d h = elim (Bool-cases (is_empty d.primary_members)) [
  | inl t ↦ inl (is_empty-none d.primary_members t)
  | inr f ↦
      let h' = rw f at h in
      let none' = map-none _ _ h' in
      inr (
        All-intro _ d.effective_seqnos
          (λ e m. is_ahead-false d e (select-none _ e d.effective_seqnos none' m)))
]

quorum_uuid-member :
    (d : GaleraTriageData) (pms : List String)
    → str_eq (quorum_uuid d pms) "" ≡ false
    → (pm : String) × (Elem pm pms
        × ((usable (node_canonical_uuid d pm) ≡ true)
            × (quorum_uuid d pms ≡ node_canonical_uuid d pm)))
unfolding quorum_uuid
quorum_uuid-member d [] h = absurd (cc)
quorum_uuid-member d (pm ∷ pms) h = elim (Bool-cases (usable (node_canonical_uuid d pm))) [
  | inl t ↦ (pm, (inl refl, (t, rw t refl)))
  | inr f ↦
      let h' = rw f at h in
      let (q, (m, (u, e))) = quorum_uuid-member d pms h' in (q, (inr m, (u, rw f e)))
]

lags_true :
    (clean empty same : Bool)
    → ((clean && not empty) && same) ≡ true
    → (empty ≡ false) × (same ≡ true)
lags_true true false same h = (refl, h)
lags_true true true same h = absurd (cc)
lags_true false empty same h = absurd (cc)

lags-IsPlaced :
    (d : GaleraTriageData) (g : Grastate) → lags d (clean_quorum d) g ≡ true → IsPlaced d g
unfolding clean_quorum
lags-IsPlaced d g h =
    let (named, same) =
      lags_true (is_empty (split_brain d)) (str_eq (quorum_uuid d d.primary_members) "")
        (str_eq (node_canonical_uuid d g.pod) (quorum_uuid d d.primary_members)) h in
    let (pm, (m, (u, e))) = quorum_uuid-member d d.primary_members named in
    inr (pm, (m, (u, (eq_iff _ _).0 same ∙ e)))

unread_blocking-none :
    (d : GaleraTriageData)
    → unread_blocking d (clean_quorum d) ≡ []
    → All (IsPlaced d) d.grastate_data
unfolding unread_blocking
unread_blocking-none d h = All-intro (IsPlaced d) d.grastate_data placed
  where
    placed : (g : Grastate) → Elem g d.grastate_data → IsPlaced d g
    placed g m = elim (Bool-cases (position_read (find g.pod d.effective_seqnos))) [
      | inl t ↦ inl t
      | inr f ↦
          let listed : Elem g (unread_nodes d) =
            Elem-select_intro (λ n. not (position_read (find n.pod d.effective_seqnos))) g
              d.grastate_data m (rw f refl) in
          lags-IsPlaced d g (
            not-false _ (
              select-none (λ n. not (lags d (clean_quorum d) n)) g (unread_nodes d) (map-none _ _ h)
                listed))
    ]

authority_by-provable :
    (pods : List String) (empty : Bool)
    → is_provable (authority_by pods (not empty)) ≡ true
    → (pods ≡ []) × (empty ≡ true)
authority_by-provable [] true h = (refl, refl)
authority_by-provable [] false h = absurd (cc)
authority_by-provable (p ∷ ps) empty h = absurd (cc)

split_brain-none :
    (d : GaleraTriageData)
    → split_brain d ≡ []
    → IsOneLineage d
      × (All IsCalm d.wsrep_map
          × ((d.primary_members ≡ []) ⊎ All (IsNotAhead d) d.effective_seqnos))
unfolding split_brain
split_brain-none d h =
    let (uuids, rest) = append-none (uuid_evidence (uuid_set d)) _ h in
    let (calm, ahead) = append-none (non_primary d.wsrep_map) _ rest in
    (uuid_set-IsOneLineage d uuids, (non_primary-IsCalm d.wsrep_map calm, ahead_of-none d ahead))

-- If the comparison of the Galera nodes calls healing safe, then all nodes whose identity is usable
-- share it, no node reports a component that is not the Primary one, no known position outside the
-- Primary component exceeds the best inside it (when there is one), and each node's position was
-- read, or else the node has the usable identity of a member of the Primary component.
pub galera_instance_comparison-IsHealable :
    (d : GaleraTriageData) → (galera_instance_comparison d).safe_to_heal ≡ true → IsHealable d
unfolding galera_instance_comparison new_authority_comparison
galera_instance_comparison-IsHealable d h =
    let (blocking, calm) =
      authority_by-provable (unread_blocking d (clean_quorum d)) (is_empty (split_brain d)) h in
    let (lineage, (status, ahead)) = split_brain-none d (is_empty-none _ calm) in
    (lineage, (status, (ahead, unread_blocking-none d blocking)))
