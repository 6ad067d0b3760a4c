-- ===== src/PruneWal/Printed.antt =====
-- Reading a printed LSN gives it back (src/engine/prunewal/cnpg.go and deadlock.go).
use hasteward.Prelude.{
  ℕ, zero, suc, ◌+◌, ◌*◌, ◌/◌, ◌%◌, ◌^◌, ◌<◌, ltb, ltb→lt, ltb→le, ◌==◌, Bool, true, false, Option,
  none, some, [], ◌∷◌, ◌++◌, if◌then◌else◌, All, ◌≡◌, ◌≢◌, refl, ap, ◌∙◌, inl, inr, Bool-cases,
  arith,
}
use hasteward.PruneWal.Lsn.{
  Codes, hex_value, shift_in, chain, scan_hex, parse_uint, is_space, trim_left, trim_right,
  cons_trimmed, trim_space, prepend, cut, bit_or, join_words, parse_lsn, hex_digit, print_hex,
  format_lsn,
}

hex_value-hex_digit : (d : ℕ) → d < 16 → hex_value (hex_digit d) ≡ some d
hex_value-hex_digit d h = ground arith

-- A printed digit.
abbrev IsHex : ℕ → Type 0
IsHex c = (is_space c ≡ false) × ((c == 47) ≡ false)

hex_digit-IsHex : (d : ℕ) → d < 16 → IsHex (hex_digit d)
hex_digit-IsHex d h = ground arith

scan_hex-append :
    (xs ys : Codes) (n : ℕ) → scan_hex (xs ++ ys) n ≡ chain (scan_hex xs n) (scan_hex ys)
unfolding scan_hex
scan_hex-append [] ys n = refl
scan_hex-append (x ∷ xs) ys n = go (shift_in n (hex_value x)) (scan_hex-append xs ys)
  where
    go :
        (o : Option ℕ)
        → ((m : ℕ) → scan_hex (xs ++ ys) m ≡ chain (scan_hex xs m) (scan_hex ys))
        → chain o (scan_hex (xs ++ ys)) ≡ chain (chain o (scan_hex xs)) (scan_hex ys)
    go none ih = refl
    go (some m) ih = ih m

-- One more digit below the bound.
scan_hex-digit : (n : ℕ) → n < 2 ^ 64 → scan_hex (hex_digit (n % 16) ∷ []) (n / 16) ≡ some n
unfolding scan_hex
scan_hex-digit n h =
    let e : n / 16 * 16 + n % 16 ≡ n = omega arith in
    rw (hex_value-hex_digit (n % 16) (omega arith), e) (fits (ltb n (2 ^ 64)) refl)
  where
    fits :
        (b : Bool) → ltb n (2 ^ 64) ≡ b → chain (if b then some n else none) (λ x. some x) ≡ some n
    fits true e = refl
    fits false e = absurd (ground arith)

bit_or-zero : (n x : ℕ) → x < 2 ^ n → bit_or n x 0 ≡ x
unfolding bit_or
bit_or-zero zero x h = omega arith
bit_or-zero (suc n) x h =
    let ih : bit_or n (x / 2) 0 ≡ x / 2 = bit_or-zero n (x / 2) (omega arith) in
    rw ih (ground arith)

bit_or-zeros : (n : ℕ) → bit_or n 0 0 ≡ 0
unfolding bit_or
bit_or-zeros zero = refl
bit_or-zeros (suc n) = rw (bit_or-zeros n) refl

join_words-halves : (v : ℕ) → v < 2 ^ 64 → join_words (v / 2 ^ 32) (v % 2 ^ 32) ≡ v
unfolding join_words
join_words-halves v h =
    let low : v % 2 ^ 32 / 2 ^ 32 ≡ 0 = omega arith in
    let high : v / 2 ^ 32 % 2 ^ 32 ≡ v / 2 ^ 32 = omega arith in
    rw (low, high) (rw (bit_or-zero 32 (v / 2 ^ 32) (omega arith)) (omega arith))

-- A printed number is not empty, is made of digits, and is read back.
abbrev Reads : Codes → ℕ → Type 0
Reads cs n = (cs ≢ []) × (All IsHex cs × (scan_hex cs 0 ≡ some n))

All-snoc : (cs : Codes) (c : ℕ) → All IsHex cs → IsHex c → All IsHex (cs ++ (c ∷ []))
All-snoc [] c h q = (q, tt)
All-snoc (d ∷ cs) c h q = (h.0, All-snoc cs c h.1 q)

snoc-nonempty : (cs : Codes) (c : ℕ) → cs ++ (c ∷ []) ≢ []
snoc-nonempty [] c e = absurd (cc)
snoc-nonempty (d ∷ cs) c e = absurd (cc)

Reads-snoc :
    (cs : Codes) (n : ℕ)
    → n < 2 ^ 64
    → Reads cs (n / 16)
    → Reads (cs ++ (hex_digit (n % 16) ∷ [])) n
Reads-snoc cs n fits (full, (digits, read)) = (
  snoc-nonempty cs _,
  (
    All-snoc cs _ digits (hex_digit-IsHex (n % 16) (omega arith)),
    scan_hex-append cs _ 0
        ∙ (ap (λ o. chain o (scan_hex (hex_digit (n % 16) ∷ []))) read ∙ scan_hex-digit n fits),
  ),
)

Reads-digit : (n : ℕ) → n < 16 → Reads (hex_digit n ∷ []) n
Reads-digit n h =
    let z : n / 16 ≡ 0 = omega arith in
    let m : n % 16 ≡ n = omega arith in
    let read = rw (z, m) at (scan_hex-digit n (omega arith)) in
    ((λ e. cc), ((hex_digit-IsHex n h, tt), read))

print_hex-Reads : (fuel n : ℕ) → n < 2 ^ 64 → n < 16 ^ suc fuel → Reads (print_hex (suc fuel) n) n
unfolding print_hex
print_hex-Reads zero n fits h = elim (Bool-cases (ltb n 16)) [
  | inl t ↦ rw t (Reads-digit n (ltb→lt _ _ t))
  | inr f ↦ absurd (omega (arith, ltb→le _ _ f, h))
]
print_hex-Reads (suc fuel) n fits h = elim (Bool-cases (ltb n 16)) [
  | inl t ↦ rw t (Reads-digit n (ltb→lt _ _ t))
  | inr f ↦ rw f (
      Reads-snoc (print_hex (suc fuel) (n / 16)) n fits
        (print_hex-Reads fuel (n / 16) (omega arith) (omega arith)))
]

parse_uint-Reads : (cs : Codes) (n : ℕ) → Reads cs n → parse_uint cs ≡ some n
unfolding parse_uint
parse_uint-Reads [] n (full, r) = absurd (full refl)
parse_uint-Reads (c ∷ cs) n (full, (digits, read)) = read

-- No space to trim, no slash before the one that joins the halves.
cut-halves : (xs ys : Codes) → All IsHex xs → cut (xs ++ (47 ∷ ys)) ≡ (xs, some ys)
unfolding cut
cut-halves [] ys h = refl
cut-halves (x ∷ xs) ys ((s, q), h) = rw q (ap (prepend x) (cut-halves xs ys h))

trim_left-halves : (xs ys : Codes) → xs ≢ [] → All IsHex xs → trim_left (xs ++ ys) ≡ xs ++ ys
unfolding trim_left
trim_left-halves [] ys full h = absurd (full refl)
trim_left-halves (x ∷ xs) ys full ((s, q), h) = rw s refl

cons_trimmed-solid : (c : ℕ) (ds : Codes) → is_space c ≡ false → cons_trimmed c ds ≡ c ∷ ds
cons_trimmed-solid c [] s = rw s refl
cons_trimmed-solid c (d ∷ ds) s = refl

trim_right-solid : (cs : Codes) → All (λ c. is_space c ≡ false) cs → trim_right cs ≡ cs
unfolding trim_right
trim_right-solid [] h = refl
trim_right-solid (c ∷ cs) (s, h) =
    ap (cons_trimmed c) (trim_right-solid cs h) ∙ cons_trimmed-solid c cs s

solid-halves :
    (xs ys : Codes) → All IsHex xs → All IsHex ys → All (λ c. is_space c ≡ false) (xs ++ (47 ∷ ys))
solid-halves [] [] h k = (refl, tt)
solid-halves [] (y ∷ ys) h ((s, q), k) = (refl, (s, (solid-halves [] ys h k).1))
solid-halves (x ∷ xs) ys ((s, q), h) k = (s, solid-halves xs ys h k)

-- Reading the hexadecimal print of a 64-bit position gives that position back.
pub parse_lsn-format_lsn : (v : ℕ) → v < 2 ^ 64 → parse_lsn (format_lsn v) ≡ some v
unfolding parse_lsn format_lsn trim_space
parse_lsn-format_lsn v h =
    let hi = v / 2 ^ 32 in
    let lo = v % 2 ^ 32 in
    let (full, (digits, read)) = print_hex-Reads 15 hi (omega arith) (omega arith) in
    let (full', (digits', read')) = print_hex-Reads 15 lo (omega arith) (omega arith) in
    let hs = print_hex 16 hi in
    let ls = print_hex 16 lo in
    let left = trim_left-halves hs (47 ∷ ls) full digits in
    let right = trim_right-solid (hs ++ (47 ∷ ls)) (solid-halves hs ls digits digits') in
    rw (left, right, cut-halves hs ls digits)
      (rw
        (
          parse_uint-Reads hs hi (full, (digits, read)),
          parse_uint-Reads ls lo (full', (digits', read')),
        )
        (ap (λ w. some w) (join_words-halves v h)))
