-- ===== src/Authority/Defs.antt =====
-- src/engine/triage/cnpg_authority.go: the values of the decision and `relate`, the comparison of
-- two instances by WAL lineage. Timelines and LSNs are the non-negative int64 values that
-- `parseTimelineInt` and `parseLSNValue` read.
use hasteward.Prelude.{
  ℕ, zero, suc, ◌-◌, String, Bool, true, false, ◌&&◌, List, [], ◌∷◌, length, get_or, ltb, ◌==◌,
  if◌then◌else◌,
}

pub data ReadState : Type 0 where
  unread read absent_no_data : ReadState

pub record SwitchPoint : Type 0 where
  pub parent_timeline : ℕ
  pub switch_lsn : ℕ

pub record Input : Type 0 where
  pub pod : String
  pub is_primary : Bool
  pub read_state : ReadState
  pub unread_reason : String
  pub timeline : ℕ
  pub checkpoint_lsn : ℕ
  pub switches : List SwitchPoint

pub data Relation : Type 0 where
  diverge equal a_dominates_b b_dominates_a : Relation

-- Go's `==` on two switch points.
abbrev pub switch_eq : SwitchPoint → SwitchPoint → Bool
switch_eq s t = (s.parent_timeline == t.parent_timeline) && (s.switch_lsn == t.switch_lsn)

abbrev pub no_switch : SwitchPoint
no_switch = record { parent_timeline = 0; switch_lsn = 0 }

unfoldable pub common_prefix_len : List SwitchPoint → List SwitchPoint → ℕ
common_prefix_len [] ys = 0
common_prefix_len (x ∷ xs) [] = 0
common_prefix_len (x ∷ xs) (y ∷ ys) = if switch_eq x y then suc (common_prefix_len xs ys) else 0

-- `upto > len(sw)` is cut to the length.
unfoldable pub last_switch_lsn : List SwitchPoint → ℕ → ℕ
last_switch_lsn [] upto = 0
last_switch_lsn (s ∷ sw) zero = 0
last_switch_lsn (s ∷ sw) (suc u) =
    let n = length (s ∷ sw) in
    (get_or (s ∷ sw) ((if ltb n (suc u) then n else suc u) - 1) no_switch).switch_lsn

abbrev pub dom : Bool → Relation
dom true = a_dominates_b
dom false = b_dominates_a

abbrev pub negate : Bool → Bool
negate true = false
negate false = true

-- `ext` forked beyond the tip of `anc`. The index `len(anc.Switches)` is in range where it is
-- called.
unfoldable pub extension_relation : Input → Input → Bool → Relation × ℕ
extension_relation ext anc extender_is_a =
    let fork = get_or ext.switches (length anc.switches) no_switch in
    if fork.parent_timeline == anc.timeline
    then if ltb fork.switch_lsn anc.checkpoint_lsn
      then if ltb fork.switch_lsn ext.checkpoint_lsn
        then (diverge, fork.switch_lsn)
        else (dom (negate extender_is_a), fork.switch_lsn)
      else (dom extender_is_a, fork.switch_lsn)
    else (diverge, fork.switch_lsn)

-- Identical switch chains.
unfoldable pub relate_same : Input → Input → ℕ → Relation × ℕ
relate_same a b k =
    if a.timeline == b.timeline
    then if ltb b.checkpoint_lsn a.checkpoint_lsn
      then (a_dominates_b, 0)
      else if ltb a.checkpoint_lsn b.checkpoint_lsn
      then (b_dominates_a, 0)
      else (equal, 0)
    else (diverge, last_switch_lsn a.switches k)

-- A fork after the last switch that both share.
unfoldable pub relate_fork : Input → Input → ℕ → Relation × ℕ
relate_fork a b k =
    let fork = last_switch_lsn a.switches k in
    if ltb fork a.checkpoint_lsn
    then if ltb fork b.checkpoint_lsn then (diverge, fork) else (a_dominates_b, fork)
    else if ltb fork b.checkpoint_lsn
    then (b_dominates_a, fork)
    else (equal, fork)

unfoldable pub relate : Input → Input → Relation × ℕ
relate a b =
    let k = common_prefix_len a.switches b.switches in
    let la = length a.switches in
    let lb = length b.switches in
    if (k == la) && (k == lb)
    then relate_same a b k
    else if (k == lb) && ltb k la
    then extension_relation a b true
    else if (k == la) && ltb k lb
    then extension_relation b a false
    else relate_fork a b k
