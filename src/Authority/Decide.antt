-- ===== src/Authority/Decide.antt =====
-- src/engine/triage/cnpg_authority.go: `determineAuthority`, from the legibility gate to the choice
-- of the leader. A message is a value with what it prints; `Leader == ""` is `none`.
use hasteward.Prelude.{
  ℕ, zero, suc, String, Bool, true, false, Option, none, some, List, [], ◌∷◌, ◌++◌, select, ltb,
  ◌==◌, if◌then◌else◌, str_eq, str_ltb,
}
use hasteward.Authority.Defs.{
  ReadState, Input, Relation, diverge, equal, a_dominates_b, b_dominates_a, relate,
}

pub data ContentRelation : Type 0 where
  content_unknown content_equal content_a_contains_b content_b_contains_a content_crossed :
      ContentRelation

-- A nil comparator is `none`.
abbrev pub Comparator : Type 0
Comparator = Option (Input → Input → ContentRelation)

pub data Blocker : Type 0 where
  unread_node : String → String → Blocker
  inconsistent : Blocker

pub data Note : Type 0 where
  content_resolved : Input → Input → ℕ → Note
  content_same : Input → Input → ℕ → Note

pub record Divergence : Type 0 where
  pub left : Input
  pub right : Input
  pub fork_lsn : ℕ

pub data LeaderReason : Type 0 where
  no_reason only_readable primary_leads not_primary : LeaderReason

pub record Decision : Type 0 where
  pub determinable : Bool
  pub leader : Option String
  pub leader_reason : LeaderReason
  pub diverged : Bool
  pub blockers : List Blocker
  pub divergences : List Divergence
  pub content_notes : List Note

abbrev pub no_decision : Decision
no_decision = record {
  determinable = false;
  leader = none;
  leader_reason = no_reason;
  diverged = false;
  blockers = [];
  divergences = [];
  content_notes = [];
}

abbrev pub is_unread : Input → Bool
is_unread i = elim i.read_state [ ReadState.unread ↦ true | _ ↦ false ]

abbrev pub is_read : Input → Bool
is_read i = elim i.read_state [ ReadState.read ↦ true | _ ↦ false ]

abbrev pub unread_blocker : Input → Blocker
unread_blocker i =
    unread_node i.pod (if str_eq i.unread_reason "" then "position UNREAD" else i.unread_reason)

unfoldable pub unread_blockers : List Input → List Blocker
unread_blockers [] = []
unread_blockers (i ∷ is) =
    if is_unread i then unread_blocker i ∷ unread_blockers is else unread_blockers is

-- What the content witness makes of a WAL divergence.
unfoldable pub resolve : Comparator → Input → Input → ℕ → Relation × List Note
resolve none a b fork = (diverge, [])
resolve (some content) a b fork = elim (content a b) [
  | content_a_contains_b ↦ (a_dominates_b, content_resolved a b fork ∷ [])
  | content_b_contains_a ↦ (b_dominates_a, content_resolved b a fork ∷ [])
  | content_equal ↦ (equal, content_same a b fork ∷ [])
  | _ ↦ (diverge, [])
]

-- The relation that the loop acts on, with the notes that it adds.
unfoldable pub verdict : Comparator → Input → Input → Relation × List Note
verdict content a b = elim (relate a b).0 [
  | diverge ↦ resolve content a b (relate a b).1
  | rel ↦ (rel, [])
]

pub record Findings : Type 0 where
  pub divergences : List Divergence
  pub notes : List Note

-- The `switch rel` at the end of the inner loop, on `dominatedBy[i]`, `dominatedBy[j]` and the
-- findings.
unfoldable pub tally : Relation → Input → Input → ℕ → ℕ → Findings → ℕ × ℕ × Findings
tally diverge a b na nb acc = (
  na,
  nb,
  record acc {
    divergences = acc.divergences ++ record { left = a; right = b; fork_lsn = (relate a b).1 } ∷ [];
  },
)
tally equal a b na nb acc = (na, nb, acc)
tally a_dominates_b a b na nb acc = (na, suc nb, acc)
tally b_dominates_a a b na nb acc = (suc na, nb, acc)

-- One round of the inner loop.
unfoldable pub compare_pair : Comparator → Input → Input → ℕ → ℕ → Findings → ℕ × ℕ × Findings
compare_pair content a b na nb acc =
    let (rel, notes) = verdict content a b in
    tally rel a b na nb (record acc { notes = acc.notes ++ notes })

-- The inner loop: the instance `a` against each later one, `ns` their counters.
unfoldable pub compare_row :
    Comparator → Input → List Input → ℕ → List ℕ → Findings → ℕ × List ℕ × Findings
compare_row content a [] na ns acc = (na, ns, acc)
compare_row content a (b ∷ bs) na [] acc = (na, [], acc)
compare_row content a (b ∷ bs) na (nb ∷ ns) acc =
    let (na', nb', acc') = compare_pair content a b na nb acc in
    let (na'', ns', acc'') = compare_row content a bs na' ns acc' in (na'', nb' ∷ ns', acc'')

-- The outer loop.
unfoldable pub compare_rows : Comparator → List Input → List ℕ → Findings → List ℕ × Findings
compare_rows content [] ns acc = (ns, acc)
compare_rows content (a ∷ bs) [] acc = ([], acc)
compare_rows content (a ∷ bs) (n ∷ ns) acc =
    let (n', ns', acc') = compare_row content a bs n ns acc in
    let (ns'', acc'') = compare_rows content bs ns' acc' in (n' ∷ ns'', acc'')

unfoldable pub zeros : List Input → List ℕ
zeros [] = []
zeros (a ∷ rest) = 0 ∷ zeros rest

unfoldable pub undominated : List Input → List ℕ → List Input
undominated [] ns = []
undominated (a ∷ rest) [] = []
undominated (a ∷ rest) (zero ∷ ns) = a ∷ undominated rest ns
undominated (a ∷ rest) (suc n ∷ ns) = undominated rest ns

-- The furthest checkpoint first, then the pod's name.
abbrev by_position : Input → Input → Bool
by_position a b =
    if a.checkpoint_lsn == b.checkpoint_lsn
    then str_ltb a.pod b.pod
    else ltb b.checkpoint_lsn a.checkpoint_lsn

-- The order of `pickLeader`.
unfoldable pub leader_before : Input → Input → Bool
leader_before a b = elim a.is_primary [
  | true ↦ elim b.is_primary [ true ↦ by_position a b | false ↦ true ]
  | false ↦ elim b.is_primary [ true ↦ false | false ↦ by_position a b ]
]

-- The first element of the sorted candidates.
unfoldable pub pick_leader : Input → List Input → Input
pick_leader best [] = best
pick_leader best (c ∷ cs) = pick_leader (if leader_before c best then c else best) cs

unfoldable pub choose : Findings → List Input → Decision
choose found [] = record no_decision { blockers = inconsistent ∷ []; content_notes = found.notes }
choose found (c ∷ cs) =
    let leader = pick_leader c cs in
    record no_decision {
      determinable = true;
      leader = some leader.pod;
      leader_reason = if leader.is_primary then primary_leads else not_primary;
      content_notes = found.notes;
    }

-- What the loop found, then the candidates.
unfoldable pub conclude : Findings → List Divergence → List Input → Decision
conclude found [] candidates = choose found candidates
conclude found (d ∷ ds) candidates = record no_decision {
  determinable = true;
  diverged = true;
  divergences = d ∷ ds;
  content_notes = found.notes;
}

unfoldable pub rank : Comparator → List Input → Decision
rank content [] = record no_decision { determinable = true }
rank content (a ∷ []) = record no_decision {
  determinable = true;
  leader = some a.pod;
  leader_reason = only_readable;
}
rank content (a ∷ b ∷ rest) =
    let readable = a ∷ b ∷ rest in
    let (ns, found) =
      compare_rows content readable (zeros readable) (record { divergences = []; notes = [] }) in
    conclude found found.divergences (undominated readable ns)

unfoldable pub determine_authority : List Input → Comparator → Decision
determine_authority insts content = elim (unread_blockers insts) [
  | [] ↦ rank content (select is_read insts)
  | b ∷ bs ↦ record no_decision { blockers = b ∷ bs }
]
