-- ===== src/Retention/Pruning.antt =====
-- Every snapshot that is deleted is old (src/engine/retention/escrow.go).
use hasteward.Repair.{insert, sort}
use hasteward.Prelude.{
  map, str_ltb, ℕ, ◌+◌, ◌≤◌, String, Bool, true, false, List, [], ◌∷◌, ltb, str_eq, ◌≡◌, refl, sym,
  subst, ◌⊎◌, inl, inr, Elem, All, All-Elem, Elem-select, arith, Bool-cases, Elem-append,
}
use hasteward.Retention.Escrows.{
  EscrowSnapshot, EscrowGroup, fold_escrows, sort_names, run_of, new_group, join_group,
  add_snapshot, group_escrows, insert_group, newest_first, select_for_release, Pruned, prune_one,
  prune_names, released_names, prune_escrow,
}
use hasteward.Retention.Release.{is_old, past_first, select_for_release-IsPolicy, Elem-past_first}

Elem-insert : (x y : String) (ys : List String) → Elem x (insert y ys) → (x ≡ y) ⊎ Elem x ys
unfolding insert
Elem-insert x y [] m = m
Elem-insert x y (z ∷ zs) m = elim (Bool-cases (str_ltb z y)) [
  | inr e ↦ rw e at m
  | inl e ↦
      let m' : (x ≡ z) ⊎ Elem x (insert y zs) = rw e at m in
      elim m' [
        | inl q ↦ inr (inl q)
        | inr n ↦ elim (Elem-insert x y zs n) [ inl q ↦ inl q | inr l ↦ inr (inr l) ]
      ]
]

Elem-sort : (x : String) (ys : List String) → Elem x (sort ys) → Elem x ys
unfolding sort
Elem-sort x [] m = m
Elem-sort x (y ∷ ys) m = elim (Elem-insert x y (sort ys) m) [
  | inl e ↦ inl e
  | inr n ↦ inr (Elem-sort x ys n)
]

module _ (items : List EscrowSnapshot) where
  -- Each name of the group is that of a listed snapshot that is no younger than the group.
  abbrev IsBacked : EscrowGroup → Type 0
  IsBacked g =
      (name : String)
      → Elem name g.snapshots
      → (s : EscrowSnapshot) × Elem s items × (s.name ≡ name) × (s.captured_at ≤ g.captured_at)

  new_group-IsBacked : (s : EscrowSnapshot) → Elem s items → IsBacked (new_group s)
  new_group-IsBacked s m name (inl e) = (s, m, sym e, omega arith)
  new_group-IsBacked s m name (inr z) = elim z [ ]

  join_group-IsBacked :
      (s : EscrowSnapshot) (g : EscrowGroup) → Elem s items → IsBacked g → IsBacked (join_group s g)
  join_group-IsBacked s g m back name at = elim (Elem-append name g.snapshots (s.name ∷ []) at) [
    | inl old ↦ let (t, mt, e, le) = back name old in (t, mt, e, ground (arith, le))
    | inr (inl e) ↦ (s, m, sym e, ground arith)
    | inr (inr z) ↦ elim z [ ]
  ]

  add_snapshot-IsBacked :
      (groups : List EscrowGroup) (s : EscrowSnapshot)
      → Elem s items
      → All IsBacked groups
      → All IsBacked (add_snapshot groups s)
  unfolding add_snapshot
  add_snapshot-IsBacked [] s m h = (new_group-IsBacked s m, tt)
  add_snapshot-IsBacked (g ∷ gs) s m h = elim (Bool-cases (str_eq g.run_id (run_of s))) [
    | inl e ↦ rw e (join_group-IsBacked s g m h.0, h.1)
    | inr e ↦ rw e (h.0, add_snapshot-IsBacked gs s m h.1)
  ]

  fold_escrows-IsBacked :
      (ss : List EscrowSnapshot) (groups : List EscrowGroup)
      → ((s : EscrowSnapshot) → Elem s ss → Elem s items)
      → All IsBacked groups
      → All IsBacked (fold_escrows groups ss)
  unfolding fold_escrows
  fold_escrows-IsBacked [] groups sub h = h
  fold_escrows-IsBacked (s ∷ ss) groups sub h =
      fold_escrows-IsBacked ss (add_snapshot groups s) (λ t m. sub t (inr m))
        (add_snapshot-IsBacked groups s (sub s (inl refl)) h)

  sort_names-IsBacked : (gs : List EscrowGroup) → All IsBacked gs → All IsBacked (map sort_names gs)
  sort_names-IsBacked [] h = tt
  sort_names-IsBacked (g ∷ gs) h =
      ((λ name m. h.0 name (Elem-sort name g.snapshots m)), sort_names-IsBacked gs h.1)

  group_escrows-IsBacked : All IsBacked (group_escrows items)
  unfolding group_escrows
  group_escrows-IsBacked =
      sort_names-IsBacked (fold_escrows [] items) (fold_escrows-IsBacked items [] (λ s h. h) tt)

  insert_group-IsBacked :
      (g : EscrowGroup) (gs : List EscrowGroup)
      → IsBacked g
      → All IsBacked gs
      → All IsBacked (insert_group g gs)
  unfolding insert_group
  insert_group-IsBacked g [] back h = (back, tt)
  insert_group-IsBacked g (k ∷ ks) back h = elim (Bool-cases (ltb g.captured_at k.captured_at)) [
    | inl e ↦ rw e (h.0, insert_group-IsBacked g ks back h.1)
    | inr e ↦ rw e (back, h)
  ]

  newest_first-IsBacked : (gs : List EscrowGroup) → All IsBacked gs → All IsBacked (newest_first gs)
  unfolding newest_first
  newest_first-IsBacked [] h = tt
  newest_first-IsBacked (g ∷ gs) h =
      insert_group-IsBacked g (newest_first gs) h.0 (newest_first-IsBacked gs h.1)

Elem-released_names :
    (gs : List EscrowGroup) (name : String)
    → Elem name (released_names gs)
    → (g : EscrowGroup) × Elem g gs × Elem name g.snapshots
unfolding released_names
Elem-released_names [] name m = elim m [ ]
Elem-released_names (g ∷ gs) name m = elim (Elem-append name g.snapshots (released_names gs) m) [
  | inl at ↦ (g, inl refl, at)
  | inr m' ↦ let (k, mk, at) = Elem-released_names gs name m' in (k, inr mk, at)
]

prune_one-deleted :
    (dry gone : Bool) (n name : String) (p : Pruned)
    → Elem name (prune_one dry gone n p).deleted
    → (name ≡ n) × (dry ≡ false) ⊎ Elem name p.deleted
prune_one-deleted true gone n name p m = inr m
prune_one-deleted false true n name p (inl e) = inl (e, refl)
prune_one-deleted false true n name p (inr m) = inr m
prune_one-deleted false false n name p m = inr m

prune_names-deleted :
    (dry : Bool) (gone : String → Bool) (names : List String) (name : String)
    → Elem name (prune_names dry gone names).deleted
    → Elem name names × (dry ≡ false)
unfolding prune_names
prune_names-deleted dry gone [] name m = elim m [ ]
prune_names-deleted dry gone (n ∷ ns) name m =
    elim (prune_one-deleted dry (gone n) n name (prune_names dry gone ns) m) [
      | inl w ↦ (inl w.0, w.1)
      | inr m' ↦ let (at, live) = prune_names-deleted dry gone ns name m' in (inr at, live)
    ]

-- A snapshot is deleted only if the run is not a dry run, and its name is that of a listed escrow that
-- has reached the minimum age, whatever the number of runs to keep.
pub prune_escrow-IsOld :
    (dry_run : Bool) (gone : String → Bool) (items : List EscrowSnapshot)
    (keep_last min_age now : ℕ) (name : String)
    → Elem name (prune_escrow dry_run gone items keep_last min_age now).1.deleted
    → (dry_run ≡ false)
      × ((s : EscrowSnapshot) × Elem s items × (s.name ≡ name) × (s.captured_at + min_age ≤ now))
unfolding prune_escrow
prune_escrow-IsOld dry_run gone items keep_last min_age now name m =
    let groups = newest_first (group_escrows items) in
    let chosen = select_for_release groups keep_last min_age now in
    let (at, live) = prune_names-deleted dry_run gone (released_names chosen.release) name m in
    let (g, mg, in_g) = Elem-released_names chosen.release name at in
    let policy = (select_for_release-IsPolicy groups keep_last min_age now).0 in
    let (past, old) =
      Elem-select (is_old min_age now) g (past_first keep_last groups) (subst (Elem g) policy mg) in
    let backed = newest_first-IsBacked items (group_escrows items) (group_escrows-IsBacked items) in
    let (s, ms, e, le) =
      All-Elem (IsBacked items) g groups backed (Elem-past_first keep_last groups g past) name
        in_g in
    (live, (s, ms, e, ground (arith, le, old)))
