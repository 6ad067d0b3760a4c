-- ===== src/PruneWal/Gates.antt =====
-- The gates of `PruneWAL`, `assertReliefEligible` and `assertReplicasCaughtUp` of
-- src/engine/prunewal/cnpg.go. A refusal is `none` or `false`.
use hasteward.Prelude.{
  ℕ, ltb, ◌==◌, select, String, Bool, true, false, ◌&&◌, ◌||◌, not, Option, none, some, List, [],
  ◌∷◌, map, if◌then◌else◌, str_eq,
}
use hasteward.Model.{
  AuthorityOutcome, diverged, Classification, authoritative, InstanceAssessment, TriageResult,
}
use hasteward.Triage.{is_empty}
use hasteward.PruneWal.Lsn.{Codes, trim_space, parse_lsn}

abbrev pub is_authoritative : Classification → Bool
is_authoritative c = elim c [ authoritative ↦ true | _ ↦ false ]

abbrev pub is_diverged : AuthorityOutcome → Bool
is_diverged o = elim o [ diverged ↦ true | _ ↦ false ]

unfoldable pub assert_relief_eligible : String → InstanceAssessment → TriageResult → Bool → Bool
assert_relief_eligible target a r force =
    if str_eq r.data_comparison.most_advanced target || is_authoritative a.classification
    then true
    else is_diverged r.data_comparison.authority && force

-- What the gates let through: whether the replicas are to be verified, and which are ready.
pub record Cleared : Type 0 where
  pub verify_replicas : Bool
  pub ready_replicas : List String

unfoldable pub ready_replicas_of : String → List InstanceAssessment → List String
ready_replicas_of target l =
    map (λ a. a.pod) (select (λ a. not (str_eq a.pod target) && a.is_ready) l)

abbrev pub primary_gate : Bool → Bool → List String → Option Cleared
primary_gate none_ready force ready =
    if none_ready && not force
    then none
    else some (record { verify_replicas = true; ready_replicas = ready })

abbrev pub relief_gate : Bool → Option Cleared
relief_gate true = some (record { verify_replicas = false; ready_replicas = [] })
relief_gate false = none

-- With the instance ready, and the replicas to be verified, or not.
abbrev pub gate_by : Bool → Bool → Option Cleared → Option Cleared → Option Cleared
gate_by true verify by_replicas by_authority = none
gate_by false true by_replicas by_authority = by_replicas
gate_by false false by_replicas by_authority = by_authority

unfoldable pub prune_gate :
    TriageResult
    → ℕ
    → InstanceAssessment
    → (primary target : String) (force deadlock_recover : Bool) → Option Cleared
prune_gate r ready_count a primary target force deadlock_recover =
    gate_by a.is_ready (str_eq primary target && not deadlock_recover)
      (primary_gate (ready_count == 0) force (ready_replicas_of target r.assessments))
      (relief_gate (assert_relief_eligible target a r force))

-- `replay_of` is what `pg_last_wal_replay_lsn` answers on a replica; none if the query fails.
module _ (replay_of : String → Option Codes) where
  -- An empty answer is an error, as is one that is no LSN.
  abbrev pub replay_lsn : Option Codes → Option ℕ
  replay_lsn none = none
  replay_lsn (some answer) =
      if is_empty (trim_space answer) then none else parse_lsn (trim_space answer)

  abbrev pub add_lagging : String → ℕ → Option ℕ → Option (List String) → Option (List String)
  add_lagging pod redo none rest = none
  add_lagging pod redo (some replay) none = none
  add_lagging pod redo (some replay) (some pods) =
      if ltb replay redo then some (pod ∷ pods) else some pods

  -- The replicas that lag behind the checkpoint, if all can be read.
  unfoldable pub lagging : ℕ → List String → Option (List String)
  lagging redo [] = some []
  lagging redo (pod ∷ pods) = add_lagging pod redo (replay_lsn (replay_of pod)) (lagging redo pods)

  abbrev pub none_lag : Bool → Option (List String) → Bool
  none_lag force none = false
  none_lag force (some []) = true
  none_lag force (some (pod ∷ pods)) = force

  abbrev pub lag_gate : Bool → List String → Option ℕ → Bool
  lag_gate force pods none = false
  lag_gate force pods (some redo) = none_lag force (lagging redo pods)

  unfoldable pub assert_replicas_caught_up : Bool → List String → Codes → Bool
  assert_replicas_caught_up force [] redo_lsn = force
  assert_replicas_caught_up force (pod ∷ pods) redo_lsn =
      lag_gate force (pod ∷ pods) (parse_lsn redo_lsn)
