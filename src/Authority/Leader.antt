-- ===== src/Authority/Leader.antt =====
-- The verdict of `determineAuthority`: what a named leader guarantees about every other instance.
use hasteward.Prelude.{
  ℕ, zero, suc, String, ◌≡◌, refl, ◌≢◌, ◌⊎◌, inl, inr, Bool, true, false, none, some, List, [], ◌∷◌,
  Elem, select, All-Elem, Elem-select, Elem-select_intro, length, arith, if◌then◌else◌,
}
use hasteward.Authority.Defs.{ReadState, Input, relate}
use hasteward.Authority.Decide.{
  Comparator, Findings, Decision, Blocker, Divergence, content_a_contains_b, content_b_contains_a,
  content_equal, ContentRelation, conclude, no_decision, verdict, resolve, compare_rows, zeros,
  undominated, leader_before, pick_leader, choose, rank, determine_authority, unread_blockers,
  is_read,
}
use hasteward.Authority.Coverage.{Covers, IsRecovered}
use hasteward.Authority.Sound.{LeftSafe, RightSafe, relate-Covers_left, relate-Covers_right}
use hasteward.Authority.Rows.{RowSafe, Table, compare_rows-Table}

Elem-better :
    (t : Bool) (x c best : Input) (cs : List Input)
    → Elem x ((if t then c else best) ∷ cs)
    → Elem x (best ∷ c ∷ cs)
Elem-better true x c best cs h = inr h
Elem-better false x c best cs (inl e) = inl e
Elem-better false x c best cs (inr m) = inr (inr m)

pick_leader-Elem : (best : Input) (cs : List Input) → Elem (pick_leader best cs) (best ∷ cs)
unfolding pick_leader
pick_leader-Elem best [] = inl refl
pick_leader-Elem best (c ∷ cs) =
    Elem-better (leader_before c best) _ c best cs
      (pick_leader-Elem (if leader_before c best then c else best) cs)

Elem-undominated :
    (c : Input) (rest : List Input) (ns : List ℕ) → Elem c (undominated rest ns) → Elem c rest
unfolding undominated
Elem-undominated c [] ns h = h
Elem-undominated c (a ∷ rest) [] h = elim h [ ]
Elem-undominated c (a ∷ rest) (zero ∷ ns) (inl e) = inl e
Elem-undominated c (a ∷ rest) (zero ∷ ns) (inr m) = inr (Elem-undominated c rest ns m)
Elem-undominated c (a ∷ rest) (suc n ∷ ns) m = inr (Elem-undominated c rest ns m)

length-zeros : (l : List Input) → length (zeros l) ≡ length l
unfolding zeros
length-zeros [] = refl
length-zeros (a ∷ l) = omega (arith, length-zeros l)

-- A relation between instances that the pairwise verdicts establish.
module _ (content : Comparator) (Good : Input → Input → Type 0) (good_self : (a : Input) → Good a a)
    (left : (a b : Input) → LeftSafe (verdict content a b).0 → Good a b)
    (right : (a b : Input) → RightSafe (verdict content a b).0 → Good b a) where
  RowSafe-at :
      (a : Input) (bs : List Input) (ns : List ℕ) (c : Input)
      → RowSafe content a bs ns
      → Elem c (undominated bs ns)
      → RightSafe (verdict content a c).0
  unfolding undominated
  RowSafe-at a [] ns c s m = elim m [ ]
  RowSafe-at a (b ∷ bs) [] c s m = elim s [ ]
  RowSafe-at a (b ∷ bs) (zero ∷ ns) c s (inl e) = rw e (s.0 refl)
  RowSafe-at a (b ∷ bs) (zero ∷ ns) c s (inr m) = RowSafe-at a bs ns c s.1 m
  RowSafe-at a (b ∷ bs) (suc n ∷ ns) c s m = RowSafe-at a bs ns c s.1 m

  undominated-Good :
      (rest : List Input) (ns : List ℕ) (c r : Input)
      → Table content rest ns
      → Elem c (undominated rest ns)
      → Elem r rest
      → Good c r
  unfolding undominated
  undominated-Good [] ns c r t m h = elim h [ ]
  undominated-Good (a ∷ rest) [] c r t m h = elim m [ ]
  undominated-Good (a ∷ rest) (zero ∷ ns) c r t (inl e) (inl q) = rw (e, q) (good_self a)
  undominated-Good (a ∷ rest) (zero ∷ ns) c r t (inl e) (inr q) =
      rw e (left a r (All-Elem _ r rest (t.0 refl) q))
  undominated-Good (a ∷ rest) (zero ∷ ns) c r t (inr m) (inl q) =
      rw q (right a c (RowSafe-at a rest ns c t.1 m))
  undominated-Good (a ∷ rest) (zero ∷ ns) c r t (inr m) (inr q) =
      undominated-Good rest ns c r t.2 m q
  undominated-Good (a ∷ rest) (suc n ∷ ns) c r t m (inl q) =
      rw q (right a c (RowSafe-at a rest ns c t.1 m))
  undominated-Good (a ∷ rest) (suc n ∷ ns) c r t m (inr q) = undominated-Good rest ns c r t.2 m q

  choose-Good :
      (found : Findings) (rest : List Input) (ns : List ℕ) (pod : String)
      → Table content rest ns
      → (choose found (undominated rest ns)).leader ≡ some pod
      → (l : Input) × Elem l rest × (l.pod ≡ pod) × ((r : Input) → Elem r rest → Good l r)
  choose-Good found rest ns pod t h = go (undominated rest ns) refl h
    where
      go :
          (cs : List Input)
          → undominated rest ns ≡ cs
          → (choose found cs).leader ≡ some pod
          → (l : Input) × Elem l rest × (l.pod ≡ pod) × ((r : Input) → Elem r rest → Good l r)
      go [] e h = absurd (unfold choose in cc)
      go (c ∷ cs) e h =
          let m : Elem (pick_leader c cs) (undominated rest ns) = rw e (pick_leader-Elem c cs) in
          (
            pick_leader c cs,
            Elem-undominated _ rest ns m,
            unfold choose in cc,
            λ r q. undominated-Good rest ns _ r t m q,
          )

  conclude-Good :
      (found : Findings) (ds : List Divergence) (rest : List Input) (ns : List ℕ) (pod : String)
      → (ds ≡ [] → Table content rest ns)
      → (conclude found ds (undominated rest ns)).leader ≡ some pod
      → (l : Input) × Elem l rest × (l.pod ≡ pod) × ((r : Input) → Elem r rest → Good l r)
  unfolding conclude
  conclude-Good found [] rest ns pod t h = choose-Good found rest ns pod (t refl) h
  conclude-Good found (d ∷ ds) rest ns pod t h = absurd (cc)

  rank-Good :
      (readable : List Input) (pod : String)
      → (rank content readable).leader ≡ some pod
      → (l : Input) × Elem l readable × (l.pod ≡ pod) × ((r : Input) → Elem r readable → Good l r)
  unfolding rank
  rank-Good [] pod h = absurd (cc)
  rank-Good (a ∷ []) pod h =
      (a, inl refl, cc, λ r m. elim m [ inl q ↦ rw q (good_self a) | inr q ↦ elim q [ ] ])
  rank-Good (a ∷ b ∷ rest) pod h =
      let readable : List Input = a ∷ b ∷ rest in
      let start : Findings = record { divergences = []; notes = [] } in
      let (ns, found) = compare_rows content readable (zeros readable) start in
      conclude-Good found found.divergences readable ns pod
        (λ e.
          (compare_rows-Table content readable (zeros readable) start (length-zeros readable) e).2)
        h

  determine_authority-Good :
      (insts : List Input) (pod : String)
      → (determine_authority insts content).leader ≡ some pod
      → (unread_blockers insts ≡ [])
        × ((l : Input) × Elem l insts
            × (is_read l ≡ true)
            × (l.pod ≡ pod)
            × ((r : Input) → Elem r insts → is_read r ≡ true → Good l r))
  unfolding determine_authority
  determine_authority-Good insts pod h = go (unread_blockers insts) refl h
    where
      go :
          (bs : List Blocker)
          → unread_blockers insts ≡ bs
          → (elim bs as (λ _. Decision) [
            | [] ↦ rank content (select is_read insts)
            | b ∷ bs' ↦ record no_decision { blockers = b ∷ bs' }
          ]).leader
            ≡ some pod
          → (unread_blockers insts ≡ [])
            × ((l : Input) × Elem l insts
                × (is_read l ≡ true)
                × (l.pod ≡ pod)
                × ((r : Input) → Elem r insts → is_read r ≡ true → Good l r))
      go [] e h' =
          let (l, m, p, good) = rank-Good (select is_read insts) pod h' in
          let q = Elem-select is_read l insts m in
          (e, (l, q.0, q.1, p, λ r m' e'. good r (Elem-select_intro is_read r insts m' e')))
      go (b ∷ bs) e h' = absurd (cc)

unread_blockers-nil :
    (insts : List Input) (r : Input)
    → unread_blockers insts ≡ []
    → Elem r insts
    → r.read_state ≢ ReadState.absent_no_data
    → is_read r ≡ true
unfolding unread_blockers
unread_blockers-nil [] r e m h = elim m [ ]
unread_blockers-nil (i ∷ rest) r e (inl q) h = ground arith
unread_blockers-nil (i ∷ rest) r e (inr m) h = ground (arith, unread_blockers-nil rest r)

-- The content witness says that the first instance holds all business rows of the second.
abbrev pub Vouched : Comparator → Input → Input → Type 0
Vouched none l r = ⊥
Vouched (some content) l r =
    (content l r ≡ content_a_contains_b)
    ⊎ (content r l ≡ content_b_contains_a)
    ⊎ (content l r ≡ content_equal)
    ⊎ (content r l ≡ content_equal)

-- What a named leader guarantees about another instance.
abbrev pub SafeOver : Comparator → Input → Input → Type 0
SafeOver content l r = IsRecovered l → Covers l r ⊎ Vouched content l r

-- What a decided pair rests on: the lineage, or the witness.
verdict_left :
    (content : Input → Input → ContentRelation) (a b : Input)
    → LeftSafe (verdict (some content) a b).0
    → LeftSafe (relate a b).0
      ⊎ ((content a b ≡ content_a_contains_b) ⊎ (content a b ≡ content_equal))
unfolding verdict resolve
verdict_left content a b h = ground arith

verdict_right :
    (content : Input → Input → ContentRelation) (a b : Input)
    → RightSafe (verdict (some content) a b).0
    → RightSafe (relate a b).0
      ⊎ ((content a b ≡ content_b_contains_a) ⊎ (content a b ≡ content_equal))
unfolding verdict resolve
verdict_right content a b h = ground arith

verdict-SafeOver_left :
    (content : Comparator) (a b : Input) → LeftSafe (verdict content a b).0 → SafeOver content a b
unfolding verdict resolve
verdict-SafeOver_left none a b h rec = inl (relate-Covers_left a b rec (ground arith))
verdict-SafeOver_left (some content) a b h rec = elim (verdict_left content a b h) [
  | inl wal ↦ inl (relate-Covers_left a b rec wal)
  | inr (inl e) ↦ inr (inl e)
  | inr (inr e) ↦ inr (inr (inr (inl e)))
]

verdict-SafeOver_right :
    (content : Comparator) (a b : Input) → RightSafe (verdict content a b).0 → SafeOver content b a
unfolding verdict resolve
verdict-SafeOver_right none a b h rec = inl (relate-Covers_right a b rec (ground arith))
verdict-SafeOver_right (some content) a b h rec = elim (verdict_right content a b h) [
  | inl wal ↦ inl (relate-Covers_right a b rec wal)
  | inr (inl e) ↦ inr (inr (inl e))
  | inr (inr e) ↦ inr (inr (inr (inr e)))
]

-- If `determineAuthority` names a leader, then no instance is unread, and the leader is one of the
-- instances that were read. If that leader is recovered, it holds every byte of WAL that any
-- instance which is not proven empty holds, or the content witness says that it holds all business
-- rows of that instance.
pub determine_authority-SafeOver :
    (insts : List Input) (content : Comparator) (pod : String)
    → (determine_authority insts content).leader ≡ some pod
    → (unread_blockers insts ≡ [])
      × ((l : Input) × Elem l insts
          × (l.read_state ≡ ReadState.read)
          × (l.pod ≡ pod)
          × ((r : Input)
              → Elem r insts
              → r.read_state ≢ ReadState.absent_no_data
              → SafeOver content l r))
determine_authority-SafeOver insts content pod h =
    let (no_unread, (l, m, e, p, good)) =
      determine_authority-Good content (SafeOver content) (λ a rec. inl (λ q held. held))
        (verdict-SafeOver_left content) (verdict-SafeOver_right content) insts pod h in
    (
      no_unread,
      (
        l,
        m,
        ground arith,
        p,
        λ r m' live. good r m' (unread_blockers-nil insts r no_unread m' live),
      ),
    )
