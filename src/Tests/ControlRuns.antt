-- ===== src/Tests/ControlRuns.antt =====
-- A primary on the second timeline, and a replica whose volume is proven missing.
use hasteward.Prelude.{codes, String, none, some, List, [], ◌∷◌, ◌++◌, ◌≡◌, refl, All}
use hasteward.Authority.{
  ReadState, determine_authority, unread_blockers, common_prefix_len, last_switch_lsn,
  extension_relation, relate_same, relate_fork, relate, resolve, verdict, tally, compare_pair,
  compare_row, compare_rows, zeros, undominated, leader_before, pick_leader, choose, conclude, rank,
}
use hasteward.PruneWal.{
  Codes, split_lines, has_prefix, contains_codes, trim_space, trim_left, trim_right, cut, print_hex,
}
use hasteward.Deadlock.{parse_int, scan_decimal, scan_fields, codes_eq}
use hasteward.ControlData.{
  ControlRead, scan_hexadecimal, parse_hex_int, parse_lsn_value, parse_timeline_int, switch_points,
  parse_timeline_history, pad_left, lines_under, join_lines, history_for_timeline, authority_input,
  build_authority_inputs,
}
use hasteward.ControlData.Closed.{IsKnown, build_authority_inputs-IsKnown}

abbrev control_of : String → String → String → Codes → String → ControlRead
control_of pod timeline location history presence = record {
  pod = pod;
  timeline_text = codes timeline;
  checkpoint_location = codes location;
  history_raw = history;
  pgdata_present = presence;
}

abbrev two_histories : Codes
two_histories =
    codes "###00000002.history"
    ++ 10 ∷ codes "1 0/64 before"
    ++ 10 ∷ codes "###00000001.history"
    ++ 10 ∷ codes "9 0/1 x"

abbrev reads : List ControlRead
reads =
    control_of "pg-1" "2" "0/96" two_histories "present"
    ∷ control_of "pg-2" "unknown" "unknown" [] "unknown"
    ∷ []

abbrev claims : List (String × String)
claims = ("pg-1", "Bound") ∷ ("pg-2", "MISSING") ∷ []

is_leader :
    (determine_authority (build_authority_inputs reads claims "pg-1") none).leader ≡ some "pg-1"
unfolding build_authority_inputs history_for_timeline join_lines lines_under pad_left
    parse_timeline_history switch_points parse_timeline_int parse_lsn_value parse_hex_int
    scan_hexadecimal parse_int scan_decimal scan_fields codes_eq split_lines has_prefix
    contains_codes trim_space trim_left trim_right cut print_hex common_prefix_len last_switch_lsn
    extension_relation relate_same relate_fork relate unread_blockers resolve verdict tally
    compare_pair compare_row compare_rows zeros undominated leader_before pick_leader choose
    conclude rank determine_authority
is_leader = refl

-- A timeline that is no number, or a location that was not read, still counts as a position.
garbage_is_read :
    (authority_input (control_of "pg-1" "x" "unknown" [] "present") "pg-1" "Bound").read_state
    ≡ ReadState.read
unfolding history_for_timeline parse_timeline_history switch_points parse_timeline_int
    parse_lsn_value parse_int scan_decimal codes_eq split_lines has_prefix contains_codes trim_space
    trim_left trim_right cut scan_fields
garbage_is_read = refl

build_authority_inputs-IsKnown_example : All (IsKnown claims) reads
build_authority_inputs-IsKnown_example =
    build_authority_inputs-IsKnown claims reads "pg-1" none "pg-1" is_leader
