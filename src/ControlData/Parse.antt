-- ===== src/ControlData/Parse.antt =====
-- `parseLSNValue`, `parseTimelineInt` and `buildAuthorityInputs` of src/engine/triage/cnpg.go, and
-- `parseTimelineHistory` and `historyForTimeline` of cnpg_authority.go. A text is the list of its codes. An
-- input has no negative numbers, which pg_controldata never prints: they count as 0. The reasons are
-- without the numbers that the source prints into them.
use hasteward.Prelude.{
  ℕ, zero, suc, ◌+◌, ◌-◌, ◌*◌, ◌%◌, ◌^◌, ltb, ◌==◌, ℤ, pos, negsuc, int_eq, int_ltb, codes, length,
  any, String, Bool, true, false, ◌&&◌, ◌||◌, not, Option, none, some, List, [], ◌∷◌, ◌++◌,
  if◌then◌else◌, str_eq, find_or,
}
use hasteward.Triage.{is_empty}
use hasteward.Authority.{ReadState, SwitchPoint, Input}
use hasteward.PruneWal.{
  Codes, hex_value, cut, trim_space, split_lines, has_prefix, contains_codes, print_hex,
}
use hasteward.Deadlock.{
  NumberScan, malformed, too_large, scanned, signed, parse_int, fields, codes_eq,
}

abbrev pub digit_or_zero : Option ℕ → ℕ
digit_or_zero none = 0
digit_or_zero (some d) = d

abbrev pub is_digit : Option ℕ → Bool
is_digit none = false
is_digit (some d) = true

unfoldable pub scan_hexadecimal : Codes → ℕ → NumberScan
scan_hexadecimal [] n = scanned n
scan_hexadecimal (c ∷ cs) n =
    let next = n * 16 + digit_or_zero (hex_value c) in
    let rest = scan_hexadecimal cs next in
    if is_digit (hex_value c) then if ltb next (2 ^ 64) then rest else too_large else malformed

abbrev pub scan_hex_digits : Codes → NumberScan
scan_hex_digits [] = malformed
scan_hex_digits (c ∷ cs) = scan_hexadecimal (c ∷ cs) 0

-- `strconv.ParseInt` in base 16.
unfoldable pub parse_hex_int : Codes → ℤ × Bool
parse_hex_int [] = (pos 0, false)
parse_hex_int (c ∷ cs) =
    if c == 45
    then signed true (scan_hex_digits cs)
    else signed false (scan_hex_digits (if c == 43 then cs else c ∷ cs))

-- The 64-bit word of an int64 value, and back.
abbrev pub to_word : ℤ → ℕ
to_word (pos n) = n % 2 ^ 64
to_word (negsuc n) = 2 ^ 64 - 1 - n % 2 ^ 64

abbrev pub from_word : ℕ → ℤ
from_word w = if ltb w (2 ^ 63) then pos w else negsuc (2 ^ 64 - 1 - w)

-- `hi * 4294967296 + lo`, which wraps.
abbrev pub lsn_of : ℤ → ℤ → ℤ
lsn_of hi lo = from_word ((to_word hi * 2 ^ 32 + to_word lo) % 2 ^ 64)

abbrev pub lsn_of_parts : ℤ × Bool → ℤ × Bool → ℤ
lsn_of_parts (hi, true) (lo, true) = lsn_of hi lo
lsn_of_parts (hi, true) (lo, false) = pos 0
lsn_of_parts (hi, false) lo = pos 0

abbrev pub lsn_of_halves : Codes × Option Codes → ℤ
lsn_of_halves (hi, none) = pos 0
lsn_of_halves (hi, some lo) =
    if any (λ c. c == 47) lo then pos 0 else lsn_of_parts (parse_hex_int hi) (parse_hex_int lo)

unfoldable pub parse_lsn_value : Codes → ℤ
parse_lsn_value lsn =
    if is_empty lsn || codes_eq lsn (codes "unknown") then pos 0 else lsn_of_halves (cut lsn)

abbrev pub value_or_zero : ℤ × Bool → ℤ
value_or_zero (n, true) = n
value_or_zero (n, false) = pos 0

unfoldable pub parse_timeline_int : Codes → ℤ
parse_timeline_int text =
    let tl = trim_space text in
    if is_empty tl || codes_eq tl (codes "unknown") then pos 0 else value_or_zero (parse_int tl)

abbrev pub to_natural : ℤ → ℕ
to_natural (pos n) = n
to_natural (negsuc n) = 0

abbrev pub switch_point_of : ℤ → ℤ → List SwitchPoint → List SwitchPoint
switch_point_of tl lsn later =
    if int_eq tl (pos 0) || int_eq lsn (pos 0)
    then later
    else record { parent_timeline = to_natural tl; switch_lsn = to_natural lsn } ∷ later

abbrev pub add_switch_point : List Codes → List SwitchPoint → List SwitchPoint
add_switch_point [] later = later
add_switch_point (a ∷ []) later = later
add_switch_point (a ∷ b ∷ ws) later =
    switch_point_of (parse_timeline_int a) (parse_lsn_value b) later

unfoldable pub switch_points : List Codes → List SwitchPoint
switch_points [] = []
switch_points (line ∷ lines) = add_switch_point (fields (trim_space line)) (switch_points lines)

unfoldable pub parse_timeline_history : Codes → List SwitchPoint
parse_timeline_history raw = switch_points (split_lines raw)

-- `%08X`.
unfoldable pub pad_left : ℕ → Codes → Codes
pad_left zero cs = cs
pad_left (suc n) cs = if ltb n (length cs) then cs else 48 ∷ pad_left n cs

abbrev pub history_marker : ℕ → Codes
history_marker timeline = codes "###" ++ pad_left 8 (print_hex 16 timeline) ++ codes ".history"

unfoldable pub lines_under : Codes → Bool → List Codes → List Codes
lines_under want inside [] = []
lines_under want inside (line ∷ lines) =
    let is_marker = has_prefix (codes "###") (trim_space line) in
    let rest =
      lines_under want (if is_marker then codes_eq (trim_space line) want else inside) lines in
    if is_marker then rest else if inside then line ∷ rest else rest

unfoldable pub join_lines : List Codes → Codes
join_lines [] = []
join_lines (l ∷ []) = l
join_lines (l ∷ k ∷ ks) = l ++ 10 ∷ join_lines (k ∷ ks)

unfoldable pub history_for_timeline : Codes → ℤ → Codes
history_for_timeline raw timeline =
    if not (contains_codes (codes "###") raw)
    then raw
    else if not (int_ltb (pos 0) timeline)
    then []
    else join_lines (lines_under (history_marker (to_natural timeline)) false (split_lines raw))

pub record ControlRead : Type 0 where
  pub pod : String
  pub timeline_text : Codes
  pub checkpoint_location : Codes
  pub history_raw : Codes
  pub pgdata_present : String

abbrev pub has_position : Codes → Bool
has_position tl = not (is_empty tl) && not (codes_eq tl (codes "unknown"))

-- An instance whose position was not read: a claim with data may be there.
abbrev pub input_with : ReadState → String → ControlRead → String → Input
input_with state reason cd primary = record {
  pod = cd.pod;
  is_primary = str_eq cd.pod primary;
  read_state = state;
  unread_reason = reason;
  timeline = 0;
  checkpoint_lsn = 0;
  switches = [];
}

-- One at a position, by whether its fork points are known.
abbrev pub positioned : ControlRead → String → ℤ → List SwitchPoint → Bool → Input
positioned cd primary timeline sw unknown_forks = record {
  pod = cd.pod;
  is_primary = str_eq cd.pod primary;
  read_state = if unknown_forks then ReadState.unread else ReadState.read;
  unread_reason = if unknown_forks then "its timeline-history is unread" else "";
  timeline = to_natural timeline;
  checkpoint_lsn = to_natural (parse_lsn_value (trim_space cd.checkpoint_location));
  switches = sw;
}

abbrev pub read_input : ControlRead → String → ℤ → List SwitchPoint → Input
read_input cd primary timeline sw =
    positioned cd primary timeline sw (int_ltb (pos 1) timeline && is_empty sw)

abbrev pub unread_input : ControlRead → String → String → Input
unread_input cd primary pvc =
    if str_eq cd.pgdata_present "empty"
    then input_with ReadState.absent_no_data "" cd primary
    else if str_eq pvc "MISSING"
    then input_with ReadState.absent_no_data "" cd primary
    else input_with ReadState.unread "position UNREAD" cd primary

abbrev pub authority_input : ControlRead → String → String → Input
authority_input cd primary pvc =
    let tl = trim_space cd.timeline_text in
    if has_position tl
    then read_input cd primary (parse_timeline_int tl)
        (parse_timeline_history (history_for_timeline cd.history_raw (parse_timeline_int tl)))
    else unread_input cd primary pvc

unfoldable pub build_authority_inputs :
    List ControlRead → List (String × String) → String → List Input
build_authority_inputs [] pvcs primary = []
build_authority_inputs (cd ∷ cds) pvcs primary =
    authority_input cd primary (find_or "" cd.pod pvcs) ∷ build_authority_inputs cds pvcs primary
