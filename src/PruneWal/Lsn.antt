-- ===== src/PruneWal/Lsn.antt =====
-- `parseLSN` of src/engine/prunewal/cnpg.go and `formatLSNU` of deadlock.go. A text is the list of its
-- codes; `parse_uint`, `trim_space` and `cut` are what the source uses of Go's strconv and strings.
use hasteward.Prelude.{
  ℕ, zero, suc, ◌+◌, ◌-◌, ◌*◌, ◌/◌, ◌%◌, ◌^◌, ltb, leb, ◌==◌, Bool, ◌&&◌, ◌||◌, Option, none, some,
  List, [], ◌∷◌, ◌++◌, if◌then◌else◌,
}

abbrev pub Codes : Type 0
Codes = List ℕ

abbrev pub between : ℕ → ℕ → ℕ → Bool
between a b c = leb a c && leb c b

abbrev pub hex_value : ℕ → Option ℕ
hex_value c =
    if between 48 57 c
    then some (c - 48)
    else if between 65 70 c
    then some (c - 55)
    else if between 97 102 c
    then some (c - 87)
    else none

-- A value of 2 ^ 64 or more is a range error.
abbrev pub shift_in : ℕ → Option ℕ → Option ℕ
shift_in n none = none
shift_in n (some d) = if ltb (n * 16 + d) (2 ^ 64) then some (n * 16 + d) else none

abbrev pub chain : Option ℕ → (ℕ → Option ℕ) → Option ℕ
chain none f = none
chain (some n) f = f n

unfoldable pub scan_hex : Codes → ℕ → Option ℕ
scan_hex [] n = some n
scan_hex (c ∷ cs) n = chain (shift_in n (hex_value c)) (scan_hex cs)

unfoldable pub parse_uint : Codes → Option ℕ
parse_uint [] = none
parse_uint (c ∷ cs) = scan_hex (c ∷ cs) 0

abbrev pub is_space : ℕ → Bool
is_space c = between 9 13 c || c == 32

unfoldable pub trim_left : Codes → Codes
trim_left [] = []
trim_left (c ∷ cs) = if is_space c then trim_left cs else c ∷ cs

abbrev pub cons_trimmed : ℕ → Codes → Codes
cons_trimmed c [] = if is_space c then [] else c ∷ []
cons_trimmed c (d ∷ ds) = c ∷ d ∷ ds

unfoldable pub trim_right : Codes → Codes
trim_right [] = []
trim_right (c ∷ cs) = cons_trimmed c (trim_right cs)

unfoldable pub trim_space : Codes → Codes
trim_space cs = trim_right (trim_left cs)

abbrev pub prepend : ℕ → Codes × Option Codes → Codes × Option Codes
prepend c (pre, rest) = (c ∷ pre, rest)

-- The text before the first slash, and what follows it, if there is one.
unfoldable pub cut : Codes → Codes × Option Codes
cut [] = ([], none)
cut (c ∷ cs) = if c == 47 then ([], some cs) else prepend c (cut cs)

-- The bitwise or of two numbers below 2 ^ n.
unfoldable pub bit_or : ℕ → ℕ → ℕ → ℕ
bit_or zero a b = 0
bit_or (suc n) a b = bit_or n (a / 2) (b / 2) * 2 + (if (a % 2 == 1) || (b % 2 == 1) then 1 else 0)

-- `hi << 32 | lo` on 64 bits.
unfoldable pub join_words : ℕ → ℕ → ℕ
join_words hi lo = bit_or 32 (hi % 2 ^ 32) (lo / 2 ^ 32) * 2 ^ 32 + lo % 2 ^ 32

abbrev pub parse_parts : Codes × Option Codes → Option ℕ
parse_parts (hi, none) = none
parse_parts (hi, some lo) =
    chain (parse_uint hi) (λ h. chain (parse_uint lo) (λ l. some (join_words h l)))

unfoldable pub parse_lsn : Codes → Option ℕ
parse_lsn s = parse_parts (cut (trim_space s))

abbrev pub hex_digit : ℕ → ℕ
hex_digit d = if ltb d 10 then d + 48 else d + 55

-- `%X`, on as many digits as the fuel has.
unfoldable pub print_hex : ℕ → ℕ → Codes
print_hex zero n = []
print_hex (suc fuel) n =
    let rest = print_hex fuel (n / 16) in
    if ltb n 16 then hex_digit n ∷ [] else rest ++ (hex_digit (n % 16) ∷ [])

unfoldable pub format_lsn : ℕ → Codes
format_lsn lsn = print_hex 16 (lsn / 2 ^ 32) ++ (47 ∷ print_hex 16 (lsn % 2 ^ 32))
