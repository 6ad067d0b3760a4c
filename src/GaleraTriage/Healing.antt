-- ===== src/GaleraTriage/Healing.antt =====
-- Which Galera nodes the assessment sends to a heal, that is to a wipe of their data
-- (src/engine/triage/galera.go).
use hasteward.Prelude.{
  find, Bool, true, false, List, [], ◌∷◌, map, ◌≡◌, refl, ◌⊎◌, inl, inr, All, Bool-cases,
}
use hasteward.Model.{
  AuthorityOutcome, provable, undeterminable, diverged, leader_not_primary, DataComparison,
}
use hasteward.GaleraTriage.Data.{Grastate, GaleraTriageData}
use hasteward.GaleraTriage.Comparison.{primary_best, galera_instance_comparison}
use hasteward.GaleraTriage.Assessment.{
  NodeState, needs_heal_in, WsrepView, view, is_synced, is_transitional, is_disconnected,
  unresolved_state, down_state, running_state, node_state, NodeAssessment, assess_node,
  build_assessments,
}
use hasteward.GaleraTriage.Quorum.{IsHealable, galera_instance_comparison-IsHealable}

-- A running node in this state of its wsrep status may be wiped.
abbrev pub IsLost : WsrepView → Type 0
IsLost w =
    (is_synced w ≡ false)
    × ((is_transitional w ≡ false) × ((is_disconnected w ≡ true) ⊎ (w.unread ≡ false)))

-- The node stays as it is, or the data of the cluster allow a heal and the node, if it runs, is lost.
abbrev pub IsJustified : GaleraTriageData → NodeAssessment → Type 0
IsJustified d a =
    (a.needs_heal ≡ false) ⊎ (IsHealable d × ((a.is_running ≡ false) ⊎ IsLost a.wsrep))

running_state-IsLost :
    (w : WsrepView) (low : Bool) (otherwise : NodeState)
    → (needs_heal_in (running_state w low otherwise) ≡ false) ⊎ IsLost w
running_state-IsLost w low otherwise = elim (Bool-cases (is_synced w)) [
  | inl t ↦ inl (rw t (elim (Bool-cases low) [ inl a ↦ rw a refl | inr a ↦ rw a refl ]))
  | inr s ↦ elim (Bool-cases (is_transitional w)) [
    | inl t ↦ inl (rw (s, t) refl)
    | inr m ↦ elim (Bool-cases (is_disconnected w)) [
      | inl t ↦ inr (s, (m, inl t))
      | inr o ↦ elim (Bool-cases w.unread) [
        | inl t ↦ inl (rw (s, m, o, t) refl)
        | inr u ↦ inr (s, (m, inr u))
      ]
    ]
  ]
]

unresolved_state-keeps :
    (ahead has_data : Bool) (o : AuthorityOutcome)
    → needs_heal_in (unresolved_state ahead has_data o) ≡ false
unresolved_state-keeps true has_data o = refl
unresolved_state-keeps false false o = refl
unresolved_state-keeps false true provable = refl
unresolved_state-keeps false true undeterminable = refl
unresolved_state-keeps false true diverged = refl
unresolved_state-keeps false true leader_not_primary = refl

node_state-IsLost :
    (c : DataComparison) (w : WsrepView)
    → (ahead has_data running low crashloop missing disk_full current : Bool)
    → (needs_heal_in (node_state c w ahead has_data running low crashloop missing disk_full current)
        ≡ false)
      ⊎ ((c.safe_to_heal ≡ true) × ((running ≡ false) ⊎ IsLost w))
unfolding node_state
node_state-IsLost c w ahead has_data running low crashloop missing disk_full current =
    elim (Bool-cases c.safe_to_heal) [
      | inr f ↦ inl (rw f (unresolved_state-keeps ahead has_data c.authority))
      | inl safe ↦ elim (Bool-cases running) [
        | inr f ↦ inr (safe, inl f)
        | inl r ↦
            elim (running_state-IsLost w low
              (down_state crashloop missing has_data disk_full current)) [
                | inl keeps ↦ inl (rw (safe, r) keeps)
                | inr lost ↦ inr (safe, inr lost)
              ]
      ]
    ]

assess_node-IsJustified :
    (d : GaleraTriageData) (g : Grastate)
    → IsJustified d (assess_node d (galera_instance_comparison d) (primary_best d) g)
unfolding assess_node
assess_node-IsJustified d g =
    elim (node_state-IsLost (galera_instance_comparison d) (view (find g.pod d.wsrep_map)) _ _ _ _ _
      _ _ _) [
        | inl keeps ↦ inl keeps
        | inr (safe, lost) ↦ inr (galera_instance_comparison-IsHealable d safe, lost)
      ]

-- The assessment marks a Galera node for a heal only when the comparison across the nodes has
-- proved what "safe to heal" promises, and a node whose pod runs only when it is neither synced in
-- the Primary component nor catching up, and not on a status that could not be read unless it
-- reports itself disconnected.
pub build_assessments-IsJustified :
    (d : GaleraTriageData) → All (IsJustified d) (build_assessments d)
unfolding build_assessments
build_assessments-IsJustified d = each d.grastate_data
  where
    each :
        (gs : List Grastate)
        → All
            (IsJustified d)
            (map (assess_node d (galera_instance_comparison d) (primary_best d)) gs)
    each [] = tt
    each (g ∷ gs) = (assess_node-IsJustified d g, each gs)
