-- ===== src/Bootstrap/Winners.antt =====
-- The lineages and the best recovered position of a bootstrap (`selectCandidate` of src/engine/bootstrap/galera.go).
use hasteward.Prelude.{
  String, Bool, true, false, ◌&&◌, none, some, List, [], ◌∷◌, ◌≡◌, refl, subst, inl, inr, Elem, All,
  All-intro, All-Elem, length, ◌≤◌, arith, Bool-cases, str_eq,
}
use hasteward.Repair.{sort}
use hasteward.GaleraTriage.Data.{WsrepRecoverResult}
use hasteward.Bootstrap.Candidate.{
  Recoveries, is_authoritative_recover, LineageGroup, add_lineage, fold_lineages, insert_lineage,
  sort_lineages, build_lineage_groups, Best, beats, take_best, best_recovered, precedes,
}

-- Each group stands for an authoritative result of its lineage.
abbrev pub HasSource : Recoveries → LineageGroup → Type 0
HasSource m g =
    (e : String × WsrepRecoverResult) × (Elem e m
      × ((is_authoritative_recover e.1 ≡ true) × (e.1.uuid ≡ g.uuid)))

add_lineage-HasSource :
    (M : Recoveries) (pod : String) (r : WsrepRecoverResult) (gs : List LineageGroup)
    → Elem (pod, r) M
    → is_authoritative_recover r ≡ true
    → All (HasSource M) gs
    → All (HasSource M) (add_lineage pod r gs)
unfolding add_lineage
add_lineage-HasSource M pod r [] at' ok h = (((pod, r), (at', (ok, refl))), tt)
add_lineage-HasSource M pod r (g ∷ gs) at' ok h = elim (Bool-cases (str_eq g.uuid r.uuid)) [
  | inl e ↦ rw e ((h.0.0, h.0.1), h.1)
  | inr e ↦ rw e (h.0, add_lineage-HasSource M pod r gs at' ok h.1)
]

fold_lineages-HasSource :
    (M m : Recoveries) (gs : List LineageGroup)
    → ((e : String × WsrepRecoverResult) → Elem e m → Elem e M)
    → All (HasSource M) gs
    → All (HasSource M) (fold_lineages m gs)
unfolding fold_lineages
fold_lineages-HasSource M [] gs sub h = h
fold_lineages-HasSource M ((pod, r) ∷ m) gs sub h = elim (Bool-cases (is_authoritative_recover r)) [
  | inl e ↦ rw e (
      fold_lineages-HasSource M m (add_lineage pod r gs) (λ x k. sub x (inr k))
        (add_lineage-HasSource M pod r gs (sub (pod, r) (inl refl)) e h))
  | inr e ↦ rw e (fold_lineages-HasSource M m gs (λ x k. sub x (inr k)) h)
]

insert_lineage-All :
    (P : LineageGroup → Type 0) (g : LineageGroup) (gs : List LineageGroup)
    → P g
    → All P gs
    → All P (insert_lineage g gs)
unfolding insert_lineage
insert_lineage-All P g [] p h = (p, tt)
insert_lineage-All P g (k ∷ ks) p h = elim (Bool-cases (precedes k g)) [
  | inl e ↦ rw e (h.0, insert_lineage-All P g ks p h.1)
  | inr e ↦ rw e (p, h)
]

sort_lineages-HasSource :
    (M : Recoveries) (gs : List LineageGroup)
    → All (HasSource M) gs
    → All (HasSource M) (sort_lineages gs)
unfolding sort_lineages
sort_lineages-HasSource M [] h = h
sort_lineages-HasSource M (g ∷ gs) h =
    insert_lineage-All (HasSource M) (record g { members = sort g.members }) (sort_lineages gs)
      (h.0.0, h.0.1) (sort_lineages-HasSource M gs h.1)

pub build_lineage_groups-HasSource : (m : Recoveries) → All (HasSource m) (build_lineage_groups m)
unfolding build_lineage_groups
build_lineage_groups-HasSource m =
    sort_lineages-HasSource m (fold_lineages m []) (fold_lineages-HasSource m m [] (λ e k. k) tt)

-- The first group has the most members.
abbrev pub IsTop : List LineageGroup → Type 0
IsTop [] = Unit
IsTop (g ∷ gs) = All (λ h. length h.members ≤ length g.members) gs

precedes-true : (g h : LineageGroup) → precedes g h ≡ true → length h.members ≤ length g.members
precedes-true g h e = ground arith

precedes-false : (g h : LineageGroup) → precedes g h ≡ false → length g.members ≤ length h.members
precedes-false g h e = ground arith

insert_lineage-IsTop :
    (g : LineageGroup) (gs : List LineageGroup) → IsTop gs → IsTop (insert_lineage g gs)
unfolding insert_lineage
insert_lineage-IsTop g [] k = tt
insert_lineage-IsTop g (h ∷ hs) k = elim (Bool-cases (precedes h g)) [
  | inl e ↦
      rw e
        (insert_lineage-All (λ x. length x.members ≤ length h.members) g hs (precedes-true h g e) k)
  | inr e ↦ rw e (
    precedes-false h g e,
    All-intro (λ x. length x.members ≤ length g.members) hs
        (λ x at'.
          let below = All-Elem (λ x. length x.members ≤ length h.members) x hs k at' in
          let above = precedes-false h g e in omega (arith, below, above)),
  )
]

sort_lineages-IsTop : (gs : List LineageGroup) → IsTop (sort_lineages gs)
unfolding sort_lineages
sort_lineages-IsTop [] = tt
sort_lineages-IsTop (g ∷ gs) =
    insert_lineage-IsTop (record g { members = sort g.members }) (sort_lineages gs)
      (sort_lineages-IsTop gs)

pub build_lineage_groups-IsTop : (m : Recoveries) → IsTop (build_lineage_groups m)
unfolding build_lineage_groups
build_lineage_groups-IsTop m = sort_lineages-IsTop (fold_lineages m [])

-- A best one is an entry that wins.
module _ (wins : WsrepRecoverResult → Bool) where
  abbrev pub IsWinner : Recoveries → Best → Type 0
  IsWinner M none = Unit
  IsWinner M (some e) = Elem e M × (wins e.1 ≡ true)

  take_best-IsWinner :
      (M : Recoveries) (t : Bool) (pod : String) (r : WsrepRecoverResult) (best : Best)
      → (t ≡ true → Elem (pod, r) M × (wins r ≡ true))
      → IsWinner M best
      → IsWinner M (take_best t pod r best)
  take_best-IsWinner M true pod r best h k = h refl
  take_best-IsWinner M false pod r best h k = k

  and_left : (a b : Bool) → (a && b) ≡ true → a ≡ true
  and_left true b h = refl
  and_left false b h = absurd (cc)

  pub best_recovered-IsWinner :
      (M m : Recoveries) (best : Best)
      → ((e : String × WsrepRecoverResult) → Elem e m → Elem e M)
      → IsWinner M best
      → IsWinner M (best_recovered wins m best)
  unfolding best_recovered
  best_recovered-IsWinner M [] best sub h = h
  best_recovered-IsWinner M ((pod, r) ∷ m) best sub h =
      best_recovered-IsWinner M m (take_best (wins r && beats r best) pod r best)
        (λ x k. sub x (inr k))
        (take_best-IsWinner M (wins r && beats r best) pod r best
          (λ t. (sub (pod, r) (inl refl), and_left (wins r) (beats r best) t)) h)

  abbrev pub IsFound : Best → Type 0
  IsFound none = ⊥
  IsFound (some e) = Unit

  take_best-IsFound :
      (pod : String) (r : WsrepRecoverResult) (best : Best)
      → IsFound best
      → (t : Bool) → IsFound (take_best t pod r best)
  take_best-IsFound pod r best h true = tt
  take_best-IsFound pod r best h false = h

  best_recovered-keeps :
      (m : Recoveries) (best : Best) → IsFound best → IsFound (best_recovered wins m best)
  unfolding best_recovered
  best_recovered-keeps [] best h = h
  best_recovered-keeps ((pod, r) ∷ m) best h =
      best_recovered-keeps m (take_best (wins r && beats r best) pod r best)
        (take_best-IsFound pod r best h (wins r && beats r best))

  take_best-winner :
      (pod : String) (r : WsrepRecoverResult) (best : Best)
      → wins r ≡ true
      → IsFound (take_best (wins r && beats r best) pod r best)
  take_best-winner pod r none e = rw e tt
  take_best-winner pod r (some b) e =
      take_best-IsFound pod r (some b) tt (wins r && beats r (some b))

  pub best_recovered-IsFound :
      (m : Recoveries) (best : Best) (e : String × WsrepRecoverResult)
      → Elem e m
      → wins e.1 ≡ true
      → IsFound (best_recovered wins m best)
  unfolding best_recovered
  best_recovered-IsFound [] best e at' w = elim at' [ ]
  best_recovered-IsFound ((pod, r) ∷ m) best e (inl q) w =
      best_recovered-keeps m (take_best (wins r && beats r best) pod r best)
        (take_best-winner pod r best (subst (λ z. wins z.1 ≡ true) q w))
  best_recovered-IsFound ((pod, r) ∷ m) best e (inr k) w =
      best_recovered-IsFound m (take_best (wins r && beats r best) pod r best) e k w
