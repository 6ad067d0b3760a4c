-- ===== src/Authority/Progress.antt =====
-- Among recovered instances the lineage order has a maximum, so `determineAuthority` reaches its
-- "no instance dominates the rest" refusal on no such input.
use hasteward.Prelude.{
  ℕ, zero, suc, String, ◌≤◌, ◌<◌, ◌≡◌, refl, sym, subst, ◌∙◌, ◌≢◌, ◌⊎◌, inl, inr, true, none, some,
  List, [], ◌∷◌, All, Elem, All-Elem, All-intro, Elem-select, Elem-select_intro, select, length,
  length-append, arith, ap,
}
use hasteward.Authority.Defs.{
  Input, Relation, diverge, equal, a_dominates_b, b_dominates_a, relate, relate_same, relate_fork,
  extension_relation,
}
use hasteward.Authority.Decide.{
  Comparator, Findings, Divergence, Decision, verdict, resolve, tally, compare_pair, compare_row,
  compare_rows, zeros, undominated, conclude, choose, rank, determine_authority, unread_blockers,
  is_read, pick_leader,
}
use hasteward.Authority.Coverage.{IsRecovered}
use hasteward.Authority.Symmetry.{relate-swap}
use hasteward.Authority.Sound.{All-at}
use hasteward.Authority.Cases.{same_chain, a_extends, b_extends, fork, relate-cases}

-- By checkpoint, then by the number of switches.
abbrev pub AtMost : Input → Input → Type 0
AtMost b a =
    (b.checkpoint_lsn < a.checkpoint_lsn)
    ⊎ ((b.checkpoint_lsn ≡ a.checkpoint_lsn) × (length b.switches ≤ length a.switches))

-- A recovered instance that is at most `a` does not dominate it.
relate-AtMost : (a b : Input) → IsRecovered b → AtMost b a → (relate a b).0 ≢ b_dominates_a
unfolding relate_same extension_relation relate_fork
relate-AtMost a b r top d = elim (relate-cases a b) [
  | same_chain e v ↦ ground (arith, v)
  | a_extends f rest e g v ↦
      let n = length-append b.switches (f ∷ rest) in ground (arith, v, g, ap length e, n)
  | b_extends f rest e g v ↦
      let n = length-append a.switches (f ∷ rest) in
      let c : f.switch_lsn ≤ b.checkpoint_lsn = All-at a.switches rest f _ (rw e at r) in
      ground (arith, v, g, ap length e, n, c)
  | fork pre x y xs ys ea eb h l v ↦ ground (arith, v, l)
]

relate-AtMost_swap : (a b : Input) → IsRecovered b → AtMost b a → (relate b a).0 ≢ a_dominates_b
relate-AtMost_swap a b r top d =
    relate-AtMost a b r top (ground (arith, ap (λ (v : Relation × ℕ). v.0) (relate-swap b a)))

AtMost-trans : (a b c : Input) → AtMost a b → AtMost b c → AtMost a c
AtMost-trans a b c (inl p) (inl q) = inl (omega arith)
AtMost-trans a b c (inl p) (inr q) = inl (omega (arith, q.0))
AtMost-trans a b c (inr p) (inl q) = inl (omega (arith, p.0))
AtMost-trans a b c (inr p) (inr q) = inr (omega (arith, p.0, q.0), omega (arith, p.1, q.1))

AtMost-total : (a b : Input) → AtMost a b ⊎ AtMost b a
AtMost-total a b = ground arith

All-AtMost :
    (a c : Input) (l : List Input) → AtMost a c → All (λ b. AtMost b a) l → All (λ b. AtMost b c) l
All-AtMost a c [] h t = tt
All-AtMost a c (b ∷ l) h t = (AtMost-trans b a c t.0 h, All-AtMost a c l h t.1)

-- Every non-empty list has a greatest element.
greatest :
    (a : Input) (l : List Input) → (c : Input) × Elem c (a ∷ l) × All (λ b. AtMost b c) (a ∷ l)
greatest a [] = (a, inl refl, (inr (refl, omega arith), tt))
greatest a (b ∷ l) =
    let (c, m, top) = greatest b l in
    elim (AtMost-total a c) [
      | inl h ↦ (c, inr m, (h, top))
      | inr h ↦ (a, inl refl, (inr (refl, omega arith), All-AtMost c a (b ∷ l) h top))
    ]

-- The counter of `c` is zero.
abbrev ZeroAt : Input → List Input → List ℕ → Type 0
ZeroAt c [] ns = ⊥
ZeroAt c (b ∷ bs) [] = ⊥
ZeroAt c (b ∷ bs) (n ∷ ns) = ((c ≡ b) × (n ≡ 0)) ⊎ ZeroAt c bs ns

ZeroAt-zeros : (c : Input) (l : List Input) → Elem c l → ZeroAt c l (zeros l)
unfolding zeros
ZeroAt-zeros c [] h = h
ZeroAt-zeros c (a ∷ l) (inl e) = inl (e, refl)
ZeroAt-zeros c (a ∷ l) (inr m) = inr (ZeroAt-zeros c l m)

tally_zero :
    (r : Relation) (a b : Input) (na nb : ℕ) (acc : Findings)
    → r ≢ b_dominates_a
    → (tally r a b na nb acc).0 ≡ na
unfolding tally
tally_zero diverge a b na nb acc h = refl
tally_zero equal a b na nb acc h = refl
tally_zero a_dominates_b a b na nb acc h = refl
tally_zero b_dominates_a a b na nb acc h = absurd (h refl)

tally_zero_right :
    (r : Relation) (a b : Input) (na nb : ℕ) (acc : Findings)
    → r ≢ a_dominates_b
    → (tally r a b na nb acc).1 ≡ nb
unfolding tally
tally_zero_right diverge a b na nb acc h = refl
tally_zero_right equal a b na nb acc h = refl
tally_zero_right a_dominates_b a b na nb acc h = absurd (h refl)
tally_zero_right b_dominates_a a b na nb acc h = refl

undominated-here :
    (c a : Input) (bs : List Input) (m : ℕ) (ms : List ℕ)
    → c ≡ a
    → m ≡ 0
    → Elem c (undominated (a ∷ bs) (m ∷ ms))
unfolding undominated
undominated-here c a bs zero ms e z = inl e
undominated-here c a bs (suc m) ms e z = absurd (omega arith)

undominated-there :
    (c a : Input) (bs : List Input) (m : ℕ) (ms : List ℕ)
    → Elem c (undominated bs ms)
    → Elem c (undominated (a ∷ bs) (m ∷ ms))
unfolding undominated
undominated-there c a bs zero ms h = inr h
undominated-there c a bs (suc m) ms h = h

module _ (content : Comparator) where
  compare_row_zero :
      (a : Input) (bs : List Input) (na : ℕ) (ns : List ℕ) (acc : Findings)
      → All (λ b. (verdict content a b).0 ≢ b_dominates_a) bs
      → (compare_row content a bs na ns acc).0 ≡ na
  unfolding compare_row compare_pair
  compare_row_zero a [] na ns acc h = refl
  compare_row_zero a (b ∷ bs) na [] acc h = refl
  compare_row_zero a (b ∷ bs) na (nb ∷ ns) acc h =
      let (na', nb', acc') = compare_pair content a b na nb acc in
      compare_row_zero a bs na' ns acc' h.1 ∙ tally_zero (verdict content a b).0 a b na nb _ h.0

  compare_row-ZeroAt :
      (c a : Input) (bs : List Input) (na : ℕ) (ns : List ℕ) (acc : Findings)
      → (verdict content a c).0 ≢ a_dominates_b
      → ZeroAt c bs ns
      → ZeroAt c bs (compare_row content a bs na ns acc).1
  unfolding compare_row compare_pair
  compare_row-ZeroAt c a [] na ns acc h z = z
  compare_row-ZeroAt c a (b ∷ bs) na [] acc h z = z
  compare_row-ZeroAt c a (b ∷ bs) na (nb ∷ ns) acc h (inl e) =
      inl (e.0, tally_zero_right (verdict content a b).0 a b na nb _ (rw (sym e.0) h) ∙ e.1)
  compare_row-ZeroAt c a (b ∷ bs) na (nb ∷ ns) acc h (inr z) =
      let (na', nb', acc') = compare_pair content a b na nb acc in
      inr (compare_row-ZeroAt c a bs na' ns acc' h z)

  compare_rows-undominated :
      (c : Input) (rest : List Input) (ns : List ℕ) (acc : Findings)
      → ((b : Input) → Elem b rest → (verdict content c b).0 ≢ b_dominates_a)
      → ((b : Input) → Elem b rest → (verdict content b c).0 ≢ a_dominates_b)
      → ZeroAt c rest ns
      → Elem c (undominated rest (compare_rows content rest ns acc).0)
  unfolding compare_rows
  compare_rows-undominated c [] ns acc p q z = elim z [ ]
  compare_rows-undominated c (a ∷ bs) [] acc p q z = elim z [ ]
  compare_rows-undominated c (a ∷ bs) (n ∷ ns) acc p q (inl e) =
      let row = compare_row_zero a bs n ns acc (
        All-intro _ bs
          (λ b m. subst (λ x. (verdict content x b).0 ≢ b_dominates_a) e.0 (p b (inr m)))) in
      undominated-here c a bs _ _ e.0 (row ∙ e.1)
  compare_rows-undominated c (a ∷ bs) (n ∷ ns) acc p q (inr z) =
      let (n', ns', acc') = compare_row content a bs n ns acc in
      undominated-there c a bs _ _ (
        compare_rows-undominated c bs ns' acc' (λ b m. p b (inr m)) (λ b m. q b (inr m))
          (compare_row-ZeroAt c a bs n ns acc (q a (inl refl)) z))

choose-Elem :
    (found : Findings) (c : Input) (cs : List Input)
    → Elem c cs
    → (pod : String) × ((choose found cs).leader ≡ some pod)
      × ((choose found cs).determinable ≡ true)
unfolding choose
choose-Elem found c [] m = elim m [ ]
choose-Elem found c (b ∷ cs) m = ((pick_leader b cs).pod, refl, refl)

-- The decision is made, and it names a leader, a divergence, or an empty cluster.
abbrev pub IsDecided : Decision → Type 0
IsDecided d =
    (d.determinable ≡ true) × ((d.diverged ≡ true) ⊎ ((pod : String) × (d.leader ≡ some pod)))

conclude-IsDecided :
    (found : Findings) (ds : List Divergence) (c : Input) (cs : List Input)
    → Elem c cs
    → IsDecided (conclude found ds cs)
unfolding conclude
conclude-IsDecided found [] c cs m = let (pod, e, t) = choose-Elem found c cs m in (t, inr (pod, e))
conclude-IsDecided found (d ∷ ds) c cs m = (refl, inl refl)

verdict-none : (a b : Input) → (verdict none a b).0 ≡ (relate a b).0
unfolding verdict resolve
verdict-none a b = ground arith

rank-IsDecided :
    (readable : List Input) (r : Input)
    → All IsRecovered readable
    → Elem r readable
    → IsDecided (rank none readable)
unfolding rank
rank-IsDecided [] r h m = elim m [ ]
rank-IsDecided (a ∷ []) r h m = (refl, inr (a.pod, refl))
rank-IsDecided (a ∷ b ∷ rest) r h m =
    let (c, at, top) = greatest a (b ∷ rest) in
    let readable : List Input = a ∷ b ∷ rest in
    let rec = All-Elem IsRecovered c readable h at in
    conclude-IsDecided _ _ c _ (
      compare_rows-undominated none c readable (zeros readable) _
        (λ x mx.
          rw (verdict-none c x) (
            relate-AtMost c x (All-Elem IsRecovered x readable h mx)
              (All-Elem _ x readable top mx)))
        (λ x mx. rw (verdict-none x c) (
          relate-AtMost_swap c x (All-Elem IsRecovered x readable h mx)
            (All-Elem _ x readable top mx)))
        (ZeroAt-zeros c readable at))

-- If no instance is unread, some instance was read, and every instance that was read is recovered,
-- then the verdict without a content witness is determinable, and it names a leader or reports a
-- divergence.
pub determine_authority-IsDecided :
    (insts : List Input) (r : Input)
    → unread_blockers insts ≡ []
    → Elem r insts
    → is_read r ≡ true
    → ((i : Input) → Elem i insts → is_read i ≡ true → IsRecovered i)
    → IsDecided (determine_authority insts none)
unfolding determine_authority
determine_authority-IsDecided insts r e m h rec =
    rw (e, determine_authority)
      (rank-IsDecided (select is_read insts) r
        (All-intro IsRecovered (select is_read insts)
          (λ i mi. let q = Elem-select is_read i insts mi in rec i q.0 q.1))
        (Elem-select_intro is_read r insts m h))
