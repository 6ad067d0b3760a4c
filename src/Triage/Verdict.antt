-- ===== src/Triage/Verdict.antt =====
-- src/engine/triage/classify.go and authority.go, and `classifyInstance` and `deriveRecovery` of
-- src/engine/triage/cnpg.go. Reasons and warnings for the operator are left out.
use hasteward.Prelude.{
  String, Bool, true, false, not, ◌&&◌, ◌||◌, Option, none, some, List, [], ◌∷◌, any, if◌then◌else◌,
  str_eq,
}
use hasteward.Model.{
  AuthorityOutcome, provable, Classification, authoritative, recoverable, disposable, unknown,
  InstanceAssessment, DataComparison, Recovery, TriageResult,
}

pub data ClusterVerdict : Type 0 where
  healthy auto_heal bootstrap_required operator_required : ClusterVerdict

pub record TriageVerdict : Type 0 where
  pub class : ClusterVerdict
  pub targets : List String

abbrev pub serves : InstanceAssessment → Bool
serves a = a.is_primary && a.is_running && a.is_ready

abbrev pub is_empty {ℓ} : {A : Type ℓ} → List A → Bool
is_empty [] = true
is_empty (x ∷ xs) = false

unfoldable pub has_join_target : TriageResult → Bool
has_join_target r =
    if r.all_nodes_down
    then false
    else if not (is_empty r.data_comparison.primary_members)
    then true
    else any serves r.assessments

unfoldable pub heal_pods : List InstanceAssessment → List String
heal_pods [] = []
heal_pods (a ∷ as') = if a.needs_heal then a.pod ∷ heal_pods as' else heal_pods as'

abbrev pub no_targets : ClusterVerdict → TriageVerdict
no_targets v = record { class = v; targets = [] }

abbrev pub heal_or_healthy : List String → TriageVerdict
heal_or_healthy [] = no_targets healthy
heal_or_healthy (p ∷ ps) = record { class = auto_heal; targets = p ∷ ps }

-- With a target to join, or not; safe to heal, or not.
abbrev pub respond : Bool → Bool → List String → TriageVerdict
respond true false pods = no_targets operator_required
respond true true pods = heal_or_healthy pods
respond false true pods = no_targets bootstrap_required
respond false false pods = no_targets operator_required

unfoldable pub classify : TriageResult → TriageVerdict
classify r = respond (has_join_target r) r.data_comparison.safe_to_heal (heal_pods r.assessments)

abbrev pub is_provable : AuthorityOutcome → Bool
is_provable provable = true
is_provable _ = false

unfoldable pub new_authority_comparison : AuthorityOutcome → String → DataComparison
new_authority_comparison outcome most_advanced = record {
  most_advanced = most_advanced;
  safe_to_heal = is_provable outcome;
  authority = outcome;
  primary_members = [];
}

unfoldable pub derive_authority_status : Bool → String
derive_authority_status true = "unambiguous"
derive_authority_status false = "ambiguous"

-- The flags in the order of the source: isPrimary, isAuthority, hasData, safeToHeal, behindTL,
-- sameTL, stranded.
unfoldable pub classify_instance : Bool → Bool → Bool → Bool → Bool → Bool → Bool → Classification
classify_instance is_primary is_authority has_data safe_to_heal behind_tl same_tl stranded =
    if not has_data || not safe_to_heal
    then unknown
    else if is_primary || is_authority
    then authoritative
    else if behind_tl || stranded
    then disposable
    else if same_tl
    then recoverable
    else unknown

abbrev pub is_disposable : InstanceAssessment → Bool
is_disposable a = elim a.classification [ disposable ↦ true | _ ↦ false ]

unfoldable pub disposable_pods : List InstanceAssessment → List String
disposable_pods [] = []
disposable_pods (a ∷ as') =
    if is_disposable a then a.pod ∷ disposable_pods as' else disposable_pods as'

-- `strings.Contains` and `strings.ToLower`.
module _ (mentions : String → String → Bool) (to_lower : String → String) where
  unfoldable pub disk_full_disposable : List InstanceAssessment → Bool
  disk_full_disposable [] = false
  disk_full_disposable (a ∷ as') =
      (is_disposable a && any (λ n. mentions n "disk full") a.notes) || disk_full_disposable as'

  abbrev pub recovery_of : String → Bool → Bool → Bool → List String → Option Recovery
  recovery_of primary frozen disk_full running [] = none
  recovery_of primary frozen disk_full running (d ∷ ds) =
      let set = if running then d ∷ ds else primary ∷ d ∷ ds in
      let blocked = frozen && disk_full && not running in
      some (record {
        blocked = blocked;
        reason = if blocked then "disk_full_disposable_replica" else "";
        authority = primary;
        disposable = d ∷ ds;
        recovery_set = set;
      })

  unfoldable pub derive_recovery :
      List InstanceAssessment → DataComparison → String → String → Bool → Option Recovery
  derive_recovery assessments comparison primary phase running =
      if not comparison.safe_to_heal || str_eq primary ""
      then some (record {
        blocked = false;
        reason = "ambiguous_authority";
        authority = "";
        disposable = [];
        recovery_set = [];
      })
      else recovery_of primary (mentions (to_lower phase) "not enough disk space")
          (disk_full_disposable assessments) running (disposable_pods assessments)
