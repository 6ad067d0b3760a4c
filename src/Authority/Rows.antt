-- ===== src/Authority/Rows.antt =====
-- What the pairwise loop of `determineAuthority` leaves in `dominatedBy`: a counter at zero means
-- that no pair was decided against the instance.
use hasteward.Prelude.{ℕ, suc, ◌≡◌, refl, ap, inl, inr, List, [], ◌∷◌, ◌++◌, All, length, arith}
use hasteward.Authority.Defs.{Input, Relation, diverge, equal, a_dominates_b, b_dominates_a}
use hasteward.Authority.Decide.{
  Comparator, Findings, Divergence, verdict, tally, compare_pair, compare_row, compare_rows,
}
use hasteward.Authority.Sound.{LeftSafe, RightSafe}

module _ (content : Comparator) where
  -- Every later instance whose counter is zero is at least as good as `a`.
  abbrev pub RowSafe : Input → List Input → List ℕ → Type 0
  RowSafe a [] ns = Unit
  RowSafe a (b ∷ bs) [] = ⊥
  RowSafe a (b ∷ bs) (m ∷ ms) = (m ≡ 0 → RightSafe (verdict content a b).0) × RowSafe a bs ms

  -- Counters never fall.
  abbrev pub Grows : List ℕ → List ℕ → Type 0
  Grows [] [] = Unit
  Grows [] (m ∷ ms) = ⊥
  Grows (n ∷ ns) [] = ⊥
  Grows (n ∷ ns) (m ∷ ms) = (m ≡ 0 → n ≡ 0) × Grows ns ms

  abbrev pub Table : List Input → List ℕ → Type 0
  Table [] ns = Unit
  Table (a ∷ bs) [] = ⊥
  Table (a ∷ bs) (n ∷ ns) =
      (n ≡ 0 → All (λ b. LeftSafe (verdict content a b).0) bs) × RowSafe a bs ns × Table bs ns

  Grows-trans : (ls ms ns : List ℕ) → Grows ls ms → Grows ms ns → Grows ls ns
  Grows-trans [] [] ns g h = h
  Grows-trans [] (m ∷ ms) ns g h = elim g [ ]
  Grows-trans (l ∷ ls) [] ns g h = elim g [ ]
  Grows-trans (l ∷ ls) (m ∷ ms) [] g h = h
  Grows-trans (l ∷ ls) (m ∷ ms) (n ∷ ns) g h = (λ e. g.0 (h.0 e), Grows-trans ls ms ns g.1 h.1)

  RowSafe-Grows :
      (a : Input) (bs : List Input) (ms ns : List ℕ)
      → RowSafe a bs ms
      → Grows ms ns
      → RowSafe a bs ns
  RowSafe-Grows a [] ms ns s g = tt
  RowSafe-Grows a (b ∷ bs) [] ns s g = elim s [ ]
  RowSafe-Grows a (b ∷ bs) (m ∷ ms) [] s g = g
  RowSafe-Grows a (b ∷ bs) (m ∷ ms) (n ∷ ns) s g =
      (λ e. s.0 (g.0 e), RowSafe-Grows a bs ms ns s.1 g.1)

  append-ne-nil : (ds : List Divergence) (d : Divergence) → ds ++ d ∷ [] ≡ [] → ⊥
  append-ne-nil [] d e = cc
  append-ne-nil (x ∷ ds) d e = cc

  tally-Safe :
      (r : Relation) (a b : Input) (na nb : ℕ) (acc : Findings)
      → (tally r a b na nb acc).2.divergences ≡ []
      → (acc.divergences ≡ [])
        × ((tally r a b na nb acc).0 ≡ 0 → (na ≡ 0) × LeftSafe r)
        × ((tally r a b na nb acc).1 ≡ 0 → (nb ≡ 0) × RightSafe r)
  unfolding tally
  tally-Safe diverge a b na nb acc h = absurd (append-ne-nil _ _ h)
  tally-Safe equal a b na nb acc h = (h, λ e. (e, inr refl), λ e. (e, inr refl))
  tally-Safe a_dominates_b a b na nb acc h = (h, λ e. (e, inl refl), λ e. absurd (omega arith))
  tally-Safe b_dominates_a a b na nb acc h = (h, λ e. absurd (omega arith), λ e. (e, inl refl))

  compare_row-Safe :
      (a : Input) (bs : List Input) (na : ℕ) (ns : List ℕ) (acc : Findings)
      → length ns ≡ length bs
      → (compare_row content a bs na ns acc).2.divergences ≡ []
      → (acc.divergences ≡ [])
        × ((compare_row content a bs na ns acc).0 ≡ 0
            → (na ≡ 0) × All (λ b. LeftSafe (verdict content a b).0) bs)
        × RowSafe a bs (compare_row content a bs na ns acc).1
        × Grows ns (compare_row content a bs na ns acc).1
  unfolding compare_row compare_pair
  compare_row-Safe a [] na [] acc l h = (h, λ e. (e, tt), tt, tt)
  compare_row-Safe a [] na (n ∷ ns) acc l h = absurd (omega arith)
  compare_row-Safe a (b ∷ bs) na [] acc l h = absurd (omega arith)
  compare_row-Safe a (b ∷ bs) na (nb ∷ ns) acc l h =
      let (na', nb', acc') = compare_pair content a b na nb acc in
      let (none', zero', safe', grows') = compare_row-Safe a bs na' ns acc' (omega arith) h in
      let (none, left, right) = tally-Safe (verdict content a b).0 a b na nb _ none' in
      (
        none,
        λ e. let z = zero' e in let y = left z.0 in (y.0, (y.1, z.1)),
        (λ e. (right e).1, safe'),
        (λ e. (right e).0, grows'),
      )

  length-compare_row :
      (a : Input) (bs : List Input) (na : ℕ) (ns : List ℕ) (acc : Findings)
      → length (compare_row content a bs na ns acc).1 ≡ length ns
  unfolding compare_row
  length-compare_row a [] na ns acc = refl
  length-compare_row a (b ∷ bs) na [] acc = refl
  length-compare_row a (b ∷ bs) na (nb ∷ ns) acc =
      let (na', nb', acc') = compare_pair content a b na nb acc in
      ap suc (length-compare_row a bs na' ns acc')

  -- After the whole loop, if it recorded no divergence.
  pub compare_rows-Table :
      (rest : List Input) (ns : List ℕ) (acc : Findings)
      → length ns ≡ length rest
      → (compare_rows content rest ns acc).1.divergences ≡ []
      → (acc.divergences ≡ [])
        × Grows ns (compare_rows content rest ns acc).0
        × Table rest (compare_rows content rest ns acc).0
  unfolding compare_rows
  compare_rows-Table [] [] acc l h = (h, tt, tt)
  compare_rows-Table [] (n ∷ ns) acc l h = absurd (omega arith)
  compare_rows-Table (a ∷ bs) [] acc l h = absurd (omega arith)
  compare_rows-Table (a ∷ bs) (n ∷ ns) acc l h =
      let (n', ns', acc') = compare_row content a bs n ns acc in
      let m : length ns' ≡ length bs = omega (arith, length-compare_row a bs n ns acc) in
      let (none', grows', table') = compare_rows-Table bs ns' acc' m h in
      let (none, zero, safe, grows) = compare_row-Safe a bs n ns acc (omega arith) none' in
      (
        none,
        (λ e. (zero e).0, Grows-trans _ _ _ grows grows'),
        (λ e. (zero e).1, RowSafe-Grows a bs _ _ safe grows', table'),
      )
