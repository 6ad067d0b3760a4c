-- ===== src/Authority/Cases.antt =====
-- `relate` by the four ways in which two switch chains can lie to one another.
use hasteward.Prelude.{
  ℕ, suc, ◌-◌, ◌≡◌, refl, ap, true, false, List, [], ◌∷◌, ◌++◌, length, get_or, arith,
  length-append,
}
use hasteward.Authority.Defs.{
  SwitchPoint, Input, switch_eq, no_switch, common_prefix_len, last_switch_lsn, extension_relation,
  relate_same, relate_fork, relate,
}
use hasteward.Authority.Coverage.{
  Chains, same, left_longer, right_longer, forked, chains, switch_eq_self,
}

-- The LSN of the last switch of a chain, 0 for none.
abbrev pub last_lsn : List SwitchPoint → ℕ
last_lsn [] = 0
last_lsn (s ∷ []) = s.switch_lsn
last_lsn (s ∷ t ∷ sw) = last_lsn (t ∷ sw)

common_prefix_len_self : (sw : List SwitchPoint) → common_prefix_len sw sw ≡ length sw
unfolding common_prefix_len
common_prefix_len_self [] = refl
common_prefix_len_self (s ∷ sw) = rw (switch_eq_self s) (ap suc (common_prefix_len_self sw))

common_prefix_len_left : (sw xs : List SwitchPoint) → common_prefix_len (sw ++ xs) sw ≡ length sw
unfolding common_prefix_len
common_prefix_len_left [] [] = refl
common_prefix_len_left [] (x ∷ xs) = refl
common_prefix_len_left (s ∷ sw) xs = rw (switch_eq_self s) (ap suc (common_prefix_len_left sw xs))

common_prefix_len_right : (sw xs : List SwitchPoint) → common_prefix_len sw (sw ++ xs) ≡ length sw
unfolding common_prefix_len
common_prefix_len_right [] xs = refl
common_prefix_len_right (s ∷ sw) xs = rw (switch_eq_self s) (ap suc (common_prefix_len_right sw xs))

common_prefix_len_fork :
    (pre : List SwitchPoint) (x y : SwitchPoint) (xs ys : List SwitchPoint)
    → switch_eq x y ≡ false
    → common_prefix_len (pre ++ x ∷ xs) (pre ++ y ∷ ys) ≡ length pre
unfolding common_prefix_len
common_prefix_len_fork [] x y xs ys h = rw h
common_prefix_len_fork (s ∷ pre) x y xs ys h =
    rw (switch_eq_self s) (ap suc (common_prefix_len_fork pre x y xs ys h))

get_or-append :
    (sw rest : List SwitchPoint) (f d : SwitchPoint) → get_or (sw ++ f ∷ rest) (length sw) d ≡ f
get_or-append [] rest f d = refl
get_or-append (s ∷ sw) rest f d = get_or-append sw rest f d

last_at :
    (pre xs : List SwitchPoint) (s : SwitchPoint)
    → (get_or ((s ∷ pre) ++ xs) (length pre) no_switch).switch_lsn ≡ last_lsn (s ∷ pre)
last_at [] xs s = refl
last_at (t ∷ pre) xs s = last_at pre xs t

last_switch_lsn-append :
    (pre xs : List SwitchPoint) → last_switch_lsn (pre ++ xs) (length pre) ≡ last_lsn pre
unfolding last_switch_lsn
last_switch_lsn-append [] [] = refl
last_switch_lsn-append [] (x ∷ xs) = refl
last_switch_lsn-append (s ∷ pre) xs =
    let at : suc (length pre) - 1 ≡ length pre = omega arith in
    ground (arith, at, length-append pre xs, last_at pre xs s)

pub data RelateCase (a b : Input) : Type 0 where
  same_chain :
      a.switches ≡ b.switches → relate a b ≡ relate_same a b (length a.switches) → RelateCase a b
  a_extends :
      (f : SwitchPoint) (rest : List SwitchPoint)
      → a.switches ≡ b.switches ++ f ∷ rest
      → get_or a.switches (length b.switches) no_switch ≡ f
      → relate a b ≡ extension_relation a b true
      → RelateCase a b
  b_extends :
      (f : SwitchPoint) (rest : List SwitchPoint)
      → b.switches ≡ a.switches ++ f ∷ rest
      → get_or b.switches (length a.switches) no_switch ≡ f
      → relate a b ≡ extension_relation b a false
      → RelateCase a b
  fork :
      (pre : List SwitchPoint) (x y : SwitchPoint) (xs ys : List SwitchPoint)
      → a.switches ≡ pre ++ x ∷ xs
      → b.switches ≡ pre ++ y ∷ ys
      → switch_eq x y ≡ false
      → last_switch_lsn a.switches (length pre) ≡ last_lsn pre
      → relate a b ≡ relate_fork a b (length pre)
      → RelateCase a b

relate_case :
    (a b : Input) {sa sb : List SwitchPoint}
    → a.switches ≡ sa
    → b.switches ≡ sb
    → Chains sa sb
    → RelateCase a b
unfolding relate
relate_case a b ea eb (same sw) =
    let k : common_prefix_len a.switches b.switches ≡ length sw =
      rw (ea, eb) (common_prefix_len_self sw) in
    same_chain (rw (ea, eb)) (ground (arith, ap length ea, ap length eb, k))
relate_case a b ea eb (left_longer sw f rest) =
    let k : common_prefix_len a.switches b.switches ≡ length sw =
      rw (ea, eb) (common_prefix_len_left sw (f ∷ rest)) in
    let n = length-append sw (f ∷ rest) in
    a_extends f rest (rw (ea, eb)) (rw (ea, eb) (get_or-append sw rest f no_switch))
      (ground (arith, ap length ea, ap length eb, k, n))
relate_case a b ea eb (right_longer sw f rest) =
    let k : common_prefix_len a.switches b.switches ≡ length sw =
      rw (ea, eb) (common_prefix_len_right sw (f ∷ rest)) in
    let n = length-append sw (f ∷ rest) in
    b_extends f rest (rw (ea, eb)) (rw (ea, eb) (get_or-append sw rest f no_switch))
      (ground (arith, ap length ea, ap length eb, k, n))
relate_case a b ea eb (forked pre x y xs ys h) =
    let k : common_prefix_len a.switches b.switches ≡ length pre =
      rw (ea, eb) (common_prefix_len_fork pre x y xs ys h) in
    let n = length-append pre (x ∷ xs) in
    let m = length-append pre (y ∷ ys) in
    fork pre x y xs ys ea eb h (rw ea (last_switch_lsn-append pre (x ∷ xs)))
      (ground (arith, ap length ea, ap length eb, k, n, m))

-- Two instances are always in one of the four cases.
pub relate-cases : (a b : Input) → RelateCase a b
relate-cases a b = relate_case a b refl refl (chains a.switches b.switches)
