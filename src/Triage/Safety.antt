-- ===== src/Triage/Safety.antt =====
-- What "safe to heal" means for the data of the cluster.
use hasteward.Prelude.{
  String, ◌≡◌, refl, sym, ap, [], ◌≢◌, Bool, true, false, Option, none, some, List, Elem, not, ◌&&◌,
  if◌then◌else◌, str_eq, eq_iff,
}
use hasteward.Model.{AuthorityOutcome, provable, undeterminable, diverged, leader_not_primary}
use hasteward.Authority.{
  Input, ReadState, Comparator, Decision, determine_authority, unread_blockers,
}
use hasteward.Authority.Leader.{SafeOver, determine_authority-SafeOver}
use hasteward.Triage.Verdict.{new_authority_comparison, is_provable}
use hasteward.Triage.Comparison.{leader_name, outcome_of, cross_instance_comparison}

str_eq-nonempty : (s : String) → str_eq s "" ≡ false → s ≢ ""
str_eq-nonempty s h e = let e' = (eq_iff s "").1 e in absurd (cc)

leader_name-some :
    (leader : Option String) (p : String) → p ≢ "" → leader_name leader ≡ p → leader ≡ some p
leader_name-some none p h e = absurd (h (sym e))
leader_name-some (some q) p h e = ap some e

provable-named :
    (determinable divergent unnamed leads empty : Bool)
    → (if determinable
        then if divergent
          then diverged
          else if not unnamed && not leads
          then leader_not_primary
          else if leads && not empty
          then provable
          else undeterminable
        else undeterminable)
      ≡ provable
    → (empty ≡ false) × (leads ≡ true)
provable-named determinable divergent unnamed true false h = (refl, refl)
provable-named true true unnamed leads empty h = absurd (cc)
provable-named false divergent unnamed leads empty h = absurd (cc)
provable-named true false true true true h = absurd (cc)
provable-named true false false true true h = absurd (cc)
provable-named true false true false empty h = absurd (cc)
provable-named true false false false empty h = absurd (cc)

-- The leader is the primary once the comparison calls the primary provable.
outcome_of-provable :
    (d : Decision) (primary : String)
    → outcome_of d primary ≡ provable
    → (primary ≢ "") × (d.leader ≡ some primary)
unfolding outcome_of
outcome_of-provable d primary h =
    let (named, leads) =
      provable-named d.determinable d.diverged (str_eq (leader_name d.leader) "")
        (str_eq (leader_name d.leader) primary) (str_eq primary "") h in
    let nonempty : primary ≢ "" = str_eq-nonempty primary named in
    (nonempty, leader_name-some d.leader primary nonempty ((eq_iff _ _).0 leads))

is_provable-provable : (o : AuthorityOutcome) → is_provable o ≡ true → o ≡ provable
is_provable-provable provable h = refl
is_provable-provable undeterminable h = absurd (cc)
is_provable-provable diverged h = absurd (cc)
is_provable-provable leader_not_primary h = absurd (cc)

-- If the comparison across the instances calls healing safe, then the primary has a name, no
-- instance is unread, and the primary is one of the instances that were read. If it is recovered,
-- then it holds every byte of WAL that any instance which is not proven empty holds, or the content
-- witness says that it holds all business rows of that instance.
pub cross_instance_comparison-SafeOver :
    (insts : List Input) (content : Comparator) (primary : String)
    → (cross_instance_comparison insts content primary).safe_to_heal ≡ true
    → (primary ≢ "")
      × (unread_blockers insts ≡ [])
      × ((l : Input) × Elem l insts
          × (l.read_state ≡ ReadState.read)
          × (l.pod ≡ primary)
          × ((r : Input)
              → Elem r insts
              → r.read_state ≢ ReadState.absent_no_data
              → SafeOver content l r))
unfolding cross_instance_comparison new_authority_comparison
cross_instance_comparison-SafeOver insts content primary h =
    let (nonempty, leads) =
      outcome_of-provable (determine_authority insts content) primary (is_provable-provable _ h) in
    let (no_unread, leader) = determine_authority-SafeOver insts content primary leads in
    (nonempty, no_unread, leader)
