-- ===== src/Deadlock/Reading.antt =====
-- `parseControlState`, `parseRedoDoneLSN`, `readReplicaPositions` and `safeToReleaseRecoveredPrimary` of
-- src/engine/prunewal/deadlock.go. A text is the list of its codes; `parse_int` and `fields` are what the
-- source uses of Go's strconv and strings.
use hasteward.Prelude.{
  ℕ, zero, suc, ◌+◌, ◌-◌, ◌*◌, ◌^◌, ltb, leb, ◌==◌, ℤ, pos, negsuc, int_eq, codes, any, String,
  Bool, true, false, ◌&&◌, ◌||◌, not, Option, none, some, List, [], ◌∷◌, if◌then◌else◌, str_eq,
}
use hasteward.PruneWal.{
  Codes, between, is_space, trim_space, parse_lsn, split_lines, has_prefix, contains_codes, extend,
  last_field,
}

-- A decimal number below 2 ^ 64, or why there is none.
pub data NumberScan : Type 0 where
  malformed too_large : NumberScan
  scanned : ℕ → NumberScan

unfoldable pub scan_decimal : Codes → ℕ → NumberScan
scan_decimal [] n = scanned n
scan_decimal (c ∷ cs) n =
    let next = n * 10 + (c - 48) in
    let rest = scan_decimal cs next in
    if between 48 57 c then if ltb next (2 ^ 64) then rest else too_large else malformed

abbrev pub scan_digits : Codes → NumberScan
scan_digits [] = malformed
scan_digits (c ∷ cs) = scan_decimal (c ∷ cs) 0

-- The value, which is at its bound out of range, and whether there is no error.
abbrev pub signed : Bool → NumberScan → ℤ × Bool
signed negative malformed = (pos 0, false)
signed false too_large = (pos (2 ^ 63 - 1), false)
signed true too_large = (negsuc (2 ^ 63 - 1), false)
signed false (scanned n) = if ltb n (2 ^ 63) then (pos n, true) else (pos (2 ^ 63 - 1), false)
signed true (scanned zero) = (pos 0, true)
signed true (scanned (suc n)) =
    if ltb n (2 ^ 63) then (negsuc n, true) else (negsuc (2 ^ 63 - 1), false)

unfoldable pub parse_int : Codes → ℤ × Bool
parse_int [] = (pos 0, false)
parse_int (c ∷ cs) =
    if c == 45
    then signed true (scan_digits cs)
    else signed false (scan_digits (if c == 43 then cs else c ∷ cs))

-- The fields of a text, and whether it starts inside one.
abbrev pub add_code : ℕ → Bool × List Codes → Bool × List Codes
add_code c (inside, ws) =
    if is_space c
    then (false, ws)
    else if inside
    then (true, extend c ws)
    else (true, (c ∷ []) ∷ ws)

unfoldable pub scan_fields : Codes → Bool × List Codes
scan_fields [] = (false, [])
scan_fields (c ∷ cs) = add_code c (scan_fields cs)

abbrev pub fields : Codes → List Codes
fields cs = (scan_fields cs).1

-- What follows the first colon.
unfoldable pub after_colon : Codes → Codes
after_colon [] = []
after_colon (c ∷ cs) = let rest = after_colon cs in if c == 58 then cs else rest

pub record ControlState : Type 0 where
  pub state : Codes
  pub redo_wal : Codes
  pub timeline : ℤ

abbrev pub read_control_line : Codes → ControlState → ControlState
read_control_line t s =
    if has_prefix (codes "Database cluster state:") t
    then record s { state = trim_space (after_colon t) }
    else if contains_codes (codes "REDO WAL file") t
    then record s { redo_wal = last_field t }
    else if has_prefix (codes "Latest checkpoint's TimeLineID:") t
    then record s { timeline = (parse_int (trim_space (after_colon t))).0 }
    else s

unfoldable pub read_control_lines : List Codes → ControlState → ControlState
read_control_lines [] s = s
read_control_lines (line ∷ lines) s =
    read_control_lines lines (read_control_line (trim_space line) s)

unfoldable pub parse_control_state : Codes → ControlState
parse_control_state output =
    read_control_lines (split_lines output) (record { state = []; redo_wal = []; timeline = pos 0 })

unfoldable pub drop_prefix : Codes → Codes → Codes
drop_prefix [] cs = cs
drop_prefix (p ∷ ps) [] = []
drop_prefix (p ∷ ps) (c ∷ cs) = drop_prefix ps cs

-- What follows the first place where the marker, which is not empty, stands.
unfoldable pub after_marker : Codes → Codes → Option Codes
after_marker marker [] = none
after_marker marker (c ∷ cs) =
    let later = after_marker marker cs in
    if has_prefix marker (c ∷ cs) then some (drop_prefix marker (c ∷ cs)) else later

abbrev pub is_trimmed : ℕ → Bool
is_trimmed c = c == 44 || c == 59

abbrev pub cons_unless_trimmed : ℕ → Codes → Codes
cons_unless_trimmed c [] = if is_trimmed c then [] else c ∷ []
cons_unless_trimmed c (d ∷ ds) = c ∷ d ∷ ds

-- Without the commas and semicolons at its end.
unfoldable pub trim_marks : Codes → Codes
trim_marks [] = []
trim_marks (c ∷ cs) = cons_unless_trimmed c (trim_marks cs)

abbrev pub parse_first : List Codes → Option ℕ
parse_first [] = none
parse_first (w ∷ ws) = parse_lsn (trim_marks w)

abbrev pub parse_after : Option Codes → Option ℕ
parse_after none = none
parse_after (some rest) = parse_first (fields rest)

unfoldable pub parse_redo_done : Codes → Option ℕ
parse_redo_done output = parse_after (after_marker (codes "redo done at ") output)

pub record InstancePos : Type 0 where
  pub pod : String
  pub timeline : ℤ
  pub lsn : ℕ

-- An instance pod, and what its query prints; none if it fails.
pub record InstancePod : Type 0 where
  pub name : String
  pub is_serving : Bool
  pub printed : Option Codes

abbrev pub position_of : String → ℤ × Bool → Option ℕ → Option InstancePos
position_of pod (timeline, false) lsn = none
position_of pod (timeline, true) none = none
position_of pod (timeline, true) (some lsn) =
    some (record { pod = pod; timeline = timeline; lsn = lsn })

abbrev pub position_from : String → List Codes → Option InstancePos
position_from pod [] = none
position_from pod (a ∷ []) = none
position_from pod (a ∷ b ∷ []) = position_of pod (parse_int a) (parse_lsn b)
position_from pod (a ∷ b ∷ c ∷ ws) = none

abbrev pub read_position : InstancePod → Option InstancePos
read_position p = elim p.printed [
  | none ↦ none
  | some out ↦ position_from p.name (fields (trim_space out))
]

abbrev pub add_position : Option InstancePos → List InstancePos → List InstancePos
add_position none ps = ps
add_position (some p) ps = p ∷ ps

unfoldable pub read_each : String → List InstancePod → List InstancePos
read_each excluded [] = []
read_each excluded (p ∷ ps) =
    let rest = read_each excluded ps in
    if str_eq p.name excluded || not p.is_serving then rest else add_position (read_position p) rest

-- `none` is a failure to list the pods.
abbrev pub read_replica_positions : String → Option (List InstancePod) → List InstancePos
read_replica_positions excluded none = []
read_replica_positions excluded (some pods) = read_each excluded pods

abbrev pub covers_recovered : InstancePos → InstancePos → Bool
covers_recovered recovered r = int_eq r.timeline recovered.timeline && leb recovered.lsn r.lsn

unfoldable pub safe_to_release_recovered_primary : InstancePos → List InstancePos → Bool
safe_to_release_recovered_primary recovered replicas = any (covers_recovered recovered) replicas
