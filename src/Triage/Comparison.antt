-- ===== src/Triage/Comparison.antt =====
-- src/engine/triage/cnpg.go: `cnpgCrossInstanceComparison`, from the inputs of the authority
-- decision. Messages and the write ledger are left out.
use hasteward.Prelude.{String, not, ◌&&◌, Option, none, some, List, if◌then◌else◌, str_eq}
use hasteward.Model.{
  AuthorityOutcome, provable, undeterminable, diverged, leader_not_primary, DataComparison,
}
use hasteward.Authority.{Input, Comparator, Decision, determine_authority}
use hasteward.Triage.Verdict.{new_authority_comparison}

-- `decision.Leader`, "" for none.
abbrev pub leader_name : Option String → String
leader_name none = ""
leader_name (some pod) = pod

abbrev pub most_advanced : Decision → String → String
most_advanced d primary =
    if str_eq (leader_name d.leader) "" && (d.determinable && not d.diverged)
    then primary
    else leader_name d.leader

unfoldable pub outcome_of : Decision → String → AuthorityOutcome
outcome_of d primary =
    if d.determinable
    then if d.diverged
      then diverged
      else if not (str_eq (leader_name d.leader) "") && not (str_eq (leader_name d.leader) primary)
      then leader_not_primary
      else if str_eq (leader_name d.leader) primary && not (str_eq primary "")
      then provable
      else undeterminable
    else undeterminable

unfoldable pub cross_instance_comparison : List Input → Comparator → String → DataComparison
cross_instance_comparison inputs content primary =
    let d = determine_authority inputs content in
    new_authority_comparison (outcome_of d primary) (most_advanced d primary)
