-- ===== src/Tests/AuthorityRuns.antt =====
-- A primary that has passed a switch, and a replica that stopped before it.
use hasteward.Prelude.{
  String, ◌≡◌, refl, sym, subst, ◌≢◌, inl, inr, arith, true, false, none, List, [], ◌∷◌, Elem,
}
use hasteward.Authority.{
  ReadState, Input, diverge, a_dominates_b, relate, is_read, unread_blockers, determine_authority,
  common_prefix_len, last_switch_lsn, extension_relation, relate_same, relate_fork, resolve,
  verdict, tally, compare_pair, compare_row, compare_rows, zeros, undominated, leader_before,
  pick_leader, choose, conclude, rank,
}
use hasteward.Authority.Coverage.{Covers, IsRecovered}
use hasteward.Authority.Symmetry.{flip, relate-swap}
use hasteward.Authority.Sound.{relate-Covers_left}
use hasteward.Authority.Leader.{SafeOver, determine_authority-SafeOver}
use hasteward.Authority.Progress.{IsDecided, determine_authority-IsDecided}
use hasteward.Triage.{cross_instance_comparison, new_authority_comparison, outcome_of}
use hasteward.Triage.Safety.{cross_instance_comparison-SafeOver}

abbrev pg_1 : Input
pg_1 = record {
  pod = "pg-1";
  is_primary = true;
  read_state = ReadState.read;
  unread_reason = "";
  timeline = 2;
  checkpoint_lsn = 200;
  switches = record { parent_timeline = 1; switch_lsn = 100 } ∷ [];
}

abbrev pg_2 : Input
pg_2 = record {
  pod = "pg-2";
  is_primary = false;
  read_state = ReadState.read;
  unread_reason = "";
  timeline = 1;
  checkpoint_lsn = 90;
  switches = [];
}

-- A replica that went past the switch on the old timeline.
abbrev pg_3 : Input
pg_3 = record {
  pod = "pg-3";
  is_primary = false;
  read_state = ReadState.read;
  unread_reason = "";
  timeline = 1;
  checkpoint_lsn = 150;
  switches = [];
}

abbrev primary_name : String
primary_name = "pg-1"

abbrev pair : List Input
pair = pg_1 ∷ pg_2 ∷ []

pg_1-IsRecovered : IsRecovered pg_1
pg_1-IsRecovered = (omega arith, tt)

ahead : relate pg_1 pg_2 ≡ (a_dominates_b, 100)
unfolding relate relate_same relate_fork extension_relation common_prefix_len last_switch_lsn
ahead = refl

forked : relate pg_1 pg_3 ≡ (diverge, 100)
unfolding relate relate_same relate_fork extension_relation common_prefix_len last_switch_lsn
forked = refl

split : (determine_authority (pg_1 ∷ pg_3 ∷ []) none).diverged ≡ true
unfolding common_prefix_len last_switch_lsn extension_relation relate_same relate_fork relate
    unread_blockers resolve verdict tally compare_pair compare_row compare_rows zeros undominated
    leader_before pick_leader choose conclude rank determine_authority
split = refl

relate-swap_example : relate pg_2 pg_1 ≡ (flip (relate pg_1 pg_2).0, (relate pg_1 pg_2).1)
relate-swap_example = relate-swap pg_1 pg_2

relate-Covers_left_example : Covers pg_1 pg_2
unfolding relate relate_same relate_fork extension_relation common_prefix_len last_switch_lsn
relate-Covers_left_example = relate-Covers_left pg_1 pg_2 pg_1-IsRecovered (inl refl)

determine_authority-SafeOver_example :
    (unread_blockers pair ≡ [])
    × ((l : Input) × Elem l pair
        × (l.read_state ≡ ReadState.read)
        × (l.pod ≡ "pg-1")
        × ((r : Input) → Elem r pair → r.read_state ≢ ReadState.absent_no_data → SafeOver none l r))
unfolding common_prefix_len last_switch_lsn extension_relation relate_same relate_fork relate
    unread_blockers resolve verdict tally compare_pair compare_row compare_rows zeros undominated
    leader_before pick_leader choose conclude rank determine_authority
determine_authority-SafeOver_example = determine_authority-SafeOver pair none "pg-1" refl

cross_instance_comparison-SafeOver_example :
    (primary_name ≢ "")
    × (unread_blockers pair ≡ [])
    × ((l : Input) × Elem l pair
        × (l.read_state ≡ ReadState.read)
        × (l.pod ≡ "pg-1")
        × ((r : Input) → Elem r pair → r.read_state ≢ ReadState.absent_no_data → SafeOver none l r))
unfolding cross_instance_comparison new_authority_comparison outcome_of common_prefix_len
    last_switch_lsn extension_relation relate_same relate_fork relate unread_blockers resolve
    verdict tally compare_pair compare_row compare_rows zeros undominated leader_before pick_leader
    choose conclude rank determine_authority
cross_instance_comparison-SafeOver_example =
    cross_instance_comparison-SafeOver pair none primary_name refl

read-IsRecovered : (i : Input) → Elem i pair → is_read i ≡ true → IsRecovered i
read-IsRecovered i (inl e) h = subst IsRecovered (sym e) pg_1-IsRecovered
read-IsRecovered i (inr (inl e)) h = subst IsRecovered (sym e) tt
read-IsRecovered i (inr (inr z)) h = elim z [ ]

determine_authority-IsDecided_example : IsDecided (determine_authority pair none)
unfolding unread_blockers
determine_authority-IsDecided_example =
    determine_authority-IsDecided pair pg_1 refl (inl refl) refl read-IsRecovered
