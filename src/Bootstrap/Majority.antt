-- ===== src/Bootstrap/Majority.antt =====
-- How many recovered nodes stand for the first lineage (`buildLineageGroups` of
-- src/engine/bootstrap/galera.go).
use hasteward.Prelude.{
  ℕ, suc, ◌+◌, ◌≤◌, length, String, Bool, true, false, ◌&&◌, List, [], ◌∷◌, ◌≡◌, refl, sym, ap,
  subst, ◌∙◌, All, inl, inr, Bool-cases, str_eq, eq_iff, str_ltb, arith,
}
use hasteward.Repair.{sort, insert}
use hasteward.GaleraTriage.Data.{WsrepRecoverResult}
use hasteward.Bootstrap.Candidate.{
  Recoveries, is_authoritative_recover, LineageGroup, add_lineage, fold_lineages, insert_lineage,
  sort_lineages, build_lineage_groups, precedes,
}
use hasteward.Bootstrap.Winners.{IsTop, build_lineage_groups-IsTop}

abbrev pub indicator : Bool → ℕ
indicator true = 1
indicator false = 0

-- How many nodes recovered an authoritative position of the lineage.
abbrev pub supporters : String → Recoveries → ℕ
supporters v [] = 0
supporters v ((pod, r) ∷ m) =
    indicator (is_authoritative_recover r && str_eq r.uuid v) + supporters v m

-- No lineage has more of them.
abbrev pub IsMost : Recoveries → String → Type 0
IsMost m u = (v : String) → supporters v m ≤ supporters u m

abbrev count_if : Bool → ℕ → ℕ
count_if true n = n
count_if false n = 0

abbrev total : (LineageGroup → ℕ) → List LineageGroup → ℕ
total w [] = 0
total w (g ∷ gs) = w g + total w gs

abbrev size : String → LineageGroup → ℕ
size v g = count_if (str_eq g.uuid v) (length g.members)

abbrev named : String → LineageGroup → ℕ
named v g = indicator (str_eq g.uuid v)

length-insert : (x : String) (l : List String) → length (insert x l) ≡ suc (length l)
unfolding insert
length-insert x [] = refl
length-insert x (y ∷ ys) = elim (Bool-cases (str_ltb y x)) [
  | inl e ↦ rw e (ap suc (length-insert x ys))
  | inr e ↦ rw e refl
]

length-sort : (l : List String) → length (sort l) ≡ length l
unfolding sort
length-sort [] = refl
length-sort (x ∷ xs) = length-insert x (sort xs) ∙ ap suc (length-sort xs)

total-insert_lineage :
    (w : LineageGroup → ℕ) (g : LineageGroup) (gs : List LineageGroup)
    → total w (insert_lineage g gs) ≡ w g + total w gs
unfolding insert_lineage
total-insert_lineage w g [] = refl
total-insert_lineage w g (h ∷ hs) = elim (Bool-cases (precedes h g)) [
  | inl e ↦ rw e (let k = total-insert_lineage w g hs in omega (arith, k))
  | inr e ↦ rw e refl
]

total-sort_lineages :
    (w : LineageGroup → ℕ) (gs : List LineageGroup)
    → ((g : LineageGroup) → w (record g { members = sort g.members }) ≡ w g)
    → total w (sort_lineages gs) ≡ total w gs
unfolding sort_lineages
total-sort_lineages w [] same = refl
total-sort_lineages w (g ∷ gs) same =
    let k = total-sort_lineages w gs same in
    let i = total-insert_lineage w (record g { members = sort g.members }) (sort_lineages gs) in
    let s = same g in omega (arith, k, i, s)

size-add_lineage :
    (v pod : String) (r : WsrepRecoverResult) (gs : List LineageGroup)
    → total (size v) (add_lineage pod r gs) ≡ indicator (str_eq r.uuid v) + total (size v) gs
unfolding add_lineage
size-add_lineage v pod r [] = elim (Bool-cases (str_eq r.uuid v)) [
  | inl e ↦ rw e refl
  | inr e ↦ rw e refl
]
size-add_lineage v pod r (g ∷ gs) = elim (Bool-cases (str_eq g.uuid r.uuid)) [
  | inl e ↦ rw e (
      let q = ap (λ u. str_eq u v) ((eq_iff g.uuid r.uuid).0 e) in
      elim (Bool-cases (str_eq r.uuid v)) [
        | inl t ↦ rw (q, t) (omega arith)
        | inr t ↦ rw (q, t) (omega arith)
      ])
  | inr e ↦ rw e (let k = size-add_lineage v pod r gs in omega (arith, k))
]

size-fold_lineages :
    (v : String) (m : Recoveries) (gs : List LineageGroup)
    → total (size v) (fold_lineages m gs) ≡ supporters v m + total (size v) gs
unfolding fold_lineages
size-fold_lineages v [] gs = omega arith
size-fold_lineages v ((pod, r) ∷ m) gs = elim (Bool-cases (is_authoritative_recover r)) [
  | inl e ↦ rw e (
      let k = size-fold_lineages v m (add_lineage pod r gs) in
      let a = size-add_lineage v pod r gs in omega (arith, k, a))
  | inr e ↦ rw e (let k = size-fold_lineages v m gs in omega (arith, k))
]

named-other :
    (v pod : String) (r : WsrepRecoverResult) (gs : List LineageGroup)
    → str_eq r.uuid v ≡ false
    → total (named v) (add_lineage pod r gs) ≡ total (named v) gs
unfolding add_lineage
named-other v pod r [] o = rw o refl
named-other v pod r (g ∷ gs) o = elim (Bool-cases (str_eq g.uuid r.uuid)) [
  | inl e ↦ rw e refl
  | inr e ↦ rw e (let k = named-other v pod r gs o in omega (arith, k))
]

named-add_lineage :
    (v pod : String) (r : WsrepRecoverResult) (gs : List LineageGroup)
    → total (named v) gs ≤ 1
    → total (named v) (add_lineage pod r gs) ≤ 1
unfolding add_lineage
named-add_lineage v pod r [] h = elim (Bool-cases (str_eq r.uuid v)) [
  | inl e ↦ rw e (omega arith)
  | inr e ↦ rw e (omega arith)
]
named-add_lineage v pod r (g ∷ gs) h = elim (Bool-cases (str_eq g.uuid r.uuid)) [
  | inl e ↦ rw e h
  | inr e ↦ rw e (elim (Bool-cases (str_eq g.uuid v)) [
    | inl t ↦
        let same : g.uuid ≡ v = (eq_iff g.uuid v).0 t in
        let apart : str_eq g.uuid r.uuid ≡ false = e in
        let o : str_eq r.uuid v ≡ false =
          other v r.uuid (subst (λ u. str_eq u r.uuid ≡ false) same apart) in
        let k = named-other v pod r gs o in let h' = rw t at h in rw t (omega (arith, k, h'))
    | inr t ↦
        let h' = rw t at h in
        let k = named-add_lineage v pod r gs (omega (arith, h')) in rw t (omega (arith, k))
  ])
]
  where
    other : (a b : String) → str_eq a b ≡ false → str_eq b a ≡ false
    other a b f = elim (Bool-cases (str_eq b a)) [
      | inl e ↦ let k : str_eq a b ≡ true = (eq_iff a b).1 (sym ((eq_iff b a).0 e)) in absurd (cc)
      | inr e ↦ e
    ]

named-fold_lineages :
    (v : String) (m : Recoveries) (gs : List LineageGroup)
    → total (named v) gs ≤ 1
    → total (named v) (fold_lineages m gs) ≤ 1
unfolding fold_lineages
named-fold_lineages v [] gs h = h
named-fold_lineages v ((pod, r) ∷ m) gs h = elim (Bool-cases (is_authoritative_recover r)) [
  | inl e ↦ rw e (named-fold_lineages v m (add_lineage pod r gs) (named-add_lineage v pod r gs h))
  | inr e ↦ rw e (named-fold_lineages v m gs h)
]

-- A lineage with one group has at most as many nodes as the largest group.
unnamed-size :
    (v : String) (gs : List LineageGroup) → total (named v) gs ≡ 0 → total (size v) gs ≡ 0
unnamed-size v [] h = refl
unnamed-size v (g ∷ gs) h = elim (Bool-cases (str_eq g.uuid v)) [
  | inl e ↦ let h' = rw e at h in absurd (omega (arith, h'))
  | inr e ↦
      rw e (let h' = rw e at h in let k = unnamed-size v gs (omega (arith, h')) in omega (arith, k))
]

size-bound :
    (v : String) (b : ℕ) (gs : List LineageGroup)
    → All (λ g. length g.members ≤ b) gs
    → total (named v) gs ≤ 1
    → total (size v) gs ≤ b
size-bound v b [] k h = omega arith
size-bound v b (g ∷ gs) k h = elim (Bool-cases (str_eq g.uuid v)) [
  | inl e ↦ rw e (
      let h' = rw e at h in
      let z = unnamed-size v gs (omega (arith, h')) in let l = k.0 in omega (arith, z, l))
  | inr e ↦
      rw e (
        let h' = rw e at h in let z = size-bound v b gs k.1 (omega (arith, h')) in omega (arith, z))
]

abbrev pub IsMajority : Recoveries → List LineageGroup → Type 0
IsMajority m [] = Unit
IsMajority m (g ∷ gs) = IsMost m g.uuid

pub build_lineage_groups-IsMajority : (m : Recoveries) → IsMajority m (build_lineage_groups m)
build_lineage_groups-IsMajority m =
    go (build_lineage_groups m) (build_lineage_groups-IsTop m) sizes names
  where
    sizes : (v : String) → total (size v) (build_lineage_groups m) ≡ supporters v m
    sizes v =
        unfold build_lineage_groups in
        let s =
          total-sort_lineages (size v) (fold_lineages m [])
            (λ g. ap (count_if (str_eq g.uuid v)) (length-sort g.members)) in
        let f = size-fold_lineages v m [] in omega (arith, s, f)

    names : (v : String) → total (named v) (build_lineage_groups m) ≤ 1
    names v =
        unfold build_lineage_groups in
        let s = total-sort_lineages (named v) (fold_lineages m []) (λ g. refl) in
        let f = named-fold_lineages v m [] (omega arith) in omega (arith, s, f)

    go :
        (gs : List LineageGroup)
        → IsTop gs
        → ((v : String) → total (size v) gs ≡ supporters v m)
        → ((v : String) → total (named v) gs ≤ 1)
        → IsMajority m gs
    go [] top s n = tt
    go (g ∷ gs) top s n = λ v.
        let below = size-bound v (length g.members) (g ∷ gs) (omega arith, top) (n v) in
        let most = s v in
        let own = s g.uuid in
        let self : str_eq g.uuid g.uuid ≡ true = (eq_iff g.uuid g.uuid).1 refl in
        let own' = rw self at own in omega (arith, below, most, own')
