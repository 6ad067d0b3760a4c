-- ===== src/Retention/Keeping.antt =====
-- What the retention of backups never deletes (src/restic/forget.go).
use hasteward.Prelude.{
  Elem-append, Elem-append_left, Elem-append_right, Elem-select, ℕ, zero, suc, ◌≤◌, length, any,
  String, Bool, true, false, not, List, [], ◌∷◌, ◌++◌, if◌then◌else◌, str_eq, eq_iff, ◌≡◌, refl,
  sym, ap, subst, ◌⊎◌, inl, inr, Elem, All, All-Elem, ltb, Bool-cases, arith,
}
use hasteward.Retention.Jobs.{
  Snapshot, JobGroup, RetentionPolicy, group_by_job, fold_jobs, insert_job, newest_jobs_first,
  keep_first, keep_windows, keeps_all, keep_set, apply_group_retention, forget_then, forget_each,
  snapshots_of, then_prune, forget_grouped,
}

-- The windows that start among the groups, after the label `last`, and the label at their end.
abbrev pub starts : (ℕ → String) → String → List JobGroup → ℕ
starts label last [] = 0
starts label last (g ∷ gs) =
    if str_eq (label g.time) last
    then starts label last gs
    else suc (starts label (label g.time) gs)

abbrev pub last_label : (ℕ → String) → String → List JobGroup → String
last_label label last [] = last
last_label label last (g ∷ gs) = last_label label (label g.time) gs

-- A group after `newer` starts no window, or `n` windows start before it.
abbrev pub IsPassed : (ℕ → String) → ℕ → List JobGroup → JobGroup → Type 0
IsPassed label n newer g = (label g.time ≡ last_label label "" newer) ⊎ (n ≤ starts label "" newer)

Elem-any : (u : String) (l : List String) → Elem u l → any (str_eq u) l ≡ true
Elem-any u [] m = elim m [ ]
Elem-any u (x ∷ xs) m = elim (Bool-cases (str_eq u x)) [
  | inl t ↦ rw t refl
  | inr f ↦ elim m [
    | inl e ↦ let e' = (eq_iff u x).1 e in absurd (cc)
    | inr n ↦ rw f (Elem-any u xs n)
  ]
]

keep_first-keeps :
    (n : ℕ) (pre : List JobGroup) (g : JobGroup) (post : List JobGroup)
    → ((Elem g.job_id (keep_first n (pre ++ (g ∷ post)))) → ⊥)
    → n ≤ length pre
unfolding keep_first
keep_first-keeps zero pre g post out = omega arith
keep_first-keeps (suc n) [] g post out = absurd (out (inl refl))
keep_first-keeps (suc n) (h ∷ pre) g post out =
    omega (arith, keep_first-keeps n pre g post (λ m. out (inr m)))

keep_windows-keeps :
    (label : ℕ → String) (n : ℕ) (last : String) (pre : List JobGroup) (g : JobGroup)
    → (post : List JobGroup) → ((Elem g.job_id (keep_windows label n last (pre ++ (g ∷ post)))) → ⊥)
    → (label g.time ≡ last_label label last pre) ⊎ (n ≤ starts label last pre)
unfolding keep_windows
keep_windows-keeps label zero last pre g post out = inr (omega arith)
keep_windows-keeps label (suc n) last [] g post out =
    elim (Bool-cases (str_eq (label g.time) last)) [
      | inl t ↦ inl ((eq_iff _ _).0 t)
      | inr f ↦ absurd (out (rw f (inl refl)))
    ]
keep_windows-keeps label (suc n) last (h ∷ pre) g post out =
    elim (Bool-cases (str_eq (label h.time) last)) [
      | inl t ↦
          let same : label h.time ≡ last = (eq_iff _ _).0 t in
          elim (keep_windows-keeps label (suc n) last pre g post (λ m. out (rw t m))) [
            | inl e ↦ inl (rw same e)
            | inr le ↦ inr (rw t le)
          ]
      | inr f ↦
          elim (keep_windows-keeps label n (label h.time) pre g post (λ m. out (rw f (inr m)))) [
            | inl e ↦ inl e
            | inr le ↦ inr (rw f (omega (arith, le)))
          ]
    ]

Elem-split :
    {A : Type 0} (a : A) (l : List A)
    → Elem a l
    → (pre : List A) × ((post : List A) × (l ≡ pre ++ (a ∷ post)))
Elem-split a [] m = elim m [ ]
Elem-split a (x ∷ xs) (inl e) = ([], (xs, ap (λ z. z ∷ xs) (sym e)))
Elem-split a (x ∷ xs) (inr m) =
    let (pre, (post, e)) = Elem-split a xs m in (x ∷ pre, (post, ap (λ l. x ∷ l) e))

-- The groups come with the newest first, ties in any order.
abbrev IsNewestFirst : List JobGroup → Type 0
IsNewestFirst [] = Unit
IsNewestFirst (g ∷ gs) = All (λ h. h.time ≤ g.time) gs × IsNewestFirst gs

insert_job-All :
    (n : ℕ) (g : JobGroup) (gs : List JobGroup)
    → g.time ≤ n
    → All (λ h. h.time ≤ n) gs
    → All (λ h. h.time ≤ n) (insert_job g gs)
unfolding insert_job
insert_job-All n g [] le h = (le, tt)
insert_job-All n g (k ∷ ks) le h = elim (Bool-cases (ltb g.time k.time)) [
  | inl e ↦ rw e (h.0, insert_job-All n g ks le h.1)
  | inr e ↦ rw e (le, h)
]

All-le :
    (m n : ℕ) (gs : List JobGroup) → m ≤ n → All (λ h. h.time ≤ m) gs → All (λ h. h.time ≤ n) gs
All-le m n [] le h = tt
All-le m n (g ∷ gs) le h = (omega (arith, h.0), All-le m n gs le h.1)

insert_job-IsNewestFirst :
    (g : JobGroup) (gs : List JobGroup) → IsNewestFirst gs → IsNewestFirst (insert_job g gs)
unfolding insert_job
insert_job-IsNewestFirst g [] h = (tt, tt)
insert_job-IsNewestFirst g (k ∷ ks) h = elim (Bool-cases (ltb g.time k.time)) [
  | inl e ↦
      let le : g.time ≤ k.time = ground arith in
      rw e (insert_job-All k.time g ks le h.0, insert_job-IsNewestFirst g ks h.1)
  | inr e ↦
      let le : k.time ≤ g.time = ground arith in rw e ((le, All-le k.time g.time ks le h.0), h)
]

group_by_job-IsNewestFirst : (snapshots : List Snapshot) → IsNewestFirst (group_by_job snapshots)
unfolding group_by_job newest_jobs_first
group_by_job-IsNewestFirst snapshots = go (fold_jobs snapshots [])
  where
    go : (gs : List JobGroup) → IsNewestFirst (newest_jobs_first gs)
    go [] = tt
    go (g ∷ gs) = insert_job-IsNewestFirst g (newest_jobs_first gs) (go gs)

-- What stands before a group of such a list is at least as new.
prefix-newer :
    (newer : List JobGroup) (g : JobGroup) (older : List JobGroup)
    → IsNewestFirst (newer ++ (g ∷ older))
    → All (λ h. g.time ≤ h.time) newer
prefix-newer [] g older h = tt
prefix-newer (k ∷ newer) g older h = (
  All-Elem (λ x. x.time ≤ k.time) g (newer ++ (g ∷ older)) h.0
      (Elem-append_right g newer (g ∷ older) (inl refl)),
  prefix-newer newer g older h.1,
)

abbrev Forgets : String → List Snapshot → Type 0
Forgets id ss = (s : Snapshot) × (Elem s ss × (s.id ≡ id))

forget_then-Forgets :
    (forget_ok : String → Bool) (ok : Bool) (id : String) (s : Snapshot) (ss : List Snapshot)
    → (rest : List String × Bool) → Elem id (forget_then forget_ok ok s.id rest).0
    → (Elem id rest.0 → Forgets id ss)
    → Forgets id (s ∷ ss)
forget_then-Forgets forget_ok true id s ss rest (inl e) ih = (s, (inl refl, sym e))
forget_then-Forgets forget_ok true id s ss rest (inr m) ih =
    let (t, (at', e)) = ih m in (t, (inr at', e))
forget_then-Forgets forget_ok false id s ss rest m ih = elim m [ ]

Elem-forget_each :
    (forget_ok : String → Bool) (id : String) (ss : List Snapshot)
    → Elem id (forget_each forget_ok ss).0
    → Forgets id ss
unfolding forget_each
Elem-forget_each forget_ok id [] m = elim m [ ]
Elem-forget_each forget_ok id (s ∷ ss) m =
    forget_then-Forgets forget_ok (forget_ok s.id) id s ss _ m (Elem-forget_each forget_ok id ss)

Elem-snapshots_of :
    (s : Snapshot) (gs : List JobGroup)
    → Elem s (snapshots_of gs)
    → (g : JobGroup) × (Elem g gs × Elem s g.snapshots)
Elem-snapshots_of s [] m = elim m [ ]
Elem-snapshots_of s (g ∷ gs) m = elim (Elem-append s g.snapshots (snapshots_of gs) m) [
  | inl at' ↦ (g, (inl refl, at'))
  | inr rest ↦ let (h, (mh, ms)) = Elem-snapshots_of s gs rest in (h, (inr mh, ms))
]

then_prune-removed :
    (prune prune_ok : Bool) (n : ℕ) (r : List String × Bool)
    → (then_prune prune prune_ok n r).removed ≡ r.0
then_prune-removed prune prune_ok n (l, true) = refl
then_prune-removed prune prune_ok n (l, false) = refl

not-true : (b : Bool) → not b ≡ true → b ≡ false
not-true true h = absurd (cc)
not-true false h = refl

module _ (day week month : ℕ → String) (p : RetentionPolicy) where
  -- The policy lets go of a group that comes after the groups `newer`.
  abbrev pub LetsGo : List JobGroup → JobGroup → Type 0
  LetsGo newer g =
      (keeps_all p ≡ false)
      × ((p.keep_last ≤ length newer)
          × (IsPassed day p.keep_daily newer g
              × (IsPassed week p.keep_weekly newer g × IsPassed month p.keep_monthly newer g)))

  keep_set-LetsGo :
      (pre : List JobGroup) (g : JobGroup) (post : List JobGroup)
      → keeps_all p ≡ false
      → ((Elem g.job_id (keep_set day week month p (pre ++ (g ∷ post)))) → ⊥)
      → LetsGo pre g
  unfolding keep_set
  keep_set-LetsGo pre g post some_kept out =
      let groups = pre ++ (g ∷ post) in
      let id = g.job_id in
      let monthly = keep_windows month p.keep_monthly "" groups in
      let weekly = keep_windows week p.keep_weekly "" groups in
      let daily = keep_windows day p.keep_daily "" groups in
      let last = keep_first p.keep_last groups in
      (
        some_kept,
        (
          keep_first-keeps p.keep_last pre g post (λ m. out (Elem-append_left id last _ m)),
          (
            keep_windows-keeps day p.keep_daily "" pre g post
                (λ m. out (Elem-append_right id last _ (Elem-append_left id daily _ m))),
            (
              keep_windows-keeps week p.keep_weekly "" pre g post (λ m. out (
                  Elem-append_right id last _
                    (Elem-append_right id daily _ (Elem-append_left id weekly _ m)))),
              keep_windows-keeps month p.keep_monthly "" pre g post (λ m. out (
                  Elem-append_right id last _
                    (Elem-append_right id daily _ (Elem-append_right id weekly monthly m)))),
            ),
          ),
        ),
      )

  apply_group_retention-removed :
      (groups : List JobGroup) (g : JobGroup)
      → Elem g (apply_group_retention day week month groups p).1
      → (pre : List JobGroup) × ((post : List JobGroup) × ((groups ≡ pre ++ (g ∷ post))
            × LetsGo pre g))
  unfolding apply_group_retention
  apply_group_retention-removed groups g m = elim (Bool-cases (keeps_all p)) [
    | inl t ↦ let m' = rw t at m in elim m' [ ]
    | inr f ↦
        let m' = rw f at m in
        let (at', gone) = Elem-select _ g groups m' in
        let (pre, (post, e)) = Elem-split g groups at' in
        (
          pre,
          (
            post,
            (
              e,
              keep_set-LetsGo pre g post f (λ k.
                  let kept =
                    Elem-any g.job_id (keep_set day week month p groups)
                      (subst (λ l. Elem g.job_id (keep_set day week month p l)) (sym e) k) in
                  let dropped = not-true _ gone in absurd (cc)),
            ),
          ),
        )
  ]

-- Every snapshot that the retention of backups forgets stands in a job group that the policy lets go:
-- the policy is not all zeros, `keepLast` groups before it are at least as new, and for days, weeks and
-- months alike the group starts no window of its own, or as many windows as the policy keeps start
-- among the groups before it, which are all at least as new.
pub forget_grouped-LetsGo :
    (day week month : ℕ → String) (forget_ok : String → Bool) (snapshots : List Snapshot)
    → (p : RetentionPolicy) (prune prune_ok : Bool) (id : String)
    → Elem id (forget_grouped day week month forget_ok snapshots p prune prune_ok).removed
    → (newer : List JobGroup) × ((g : JobGroup) × ((older : List JobGroup) × ((group_by_job
                snapshots
              ≡ newer ++ (g ∷ older))
            × (All (λ h. g.time ≤ h.time) newer
                × (LetsGo day week month p newer g
                    × ((s : Snapshot) × (Elem s g.snapshots × (s.id ≡ id))))))))
unfolding forget_grouped
forget_grouped-LetsGo day week month forget_ok snapshots p prune prune_ok id m =
    let split = apply_group_retention day week month (group_by_job snapshots) p in
    let m' =
      subst (Elem id)
        (then_prune-removed prune prune_ok _ (forget_each forget_ok (snapshots_of split.1))) m in
    let (s, (ms, named)) = Elem-forget_each forget_ok id (snapshots_of split.1) m' in
    let (g, (mg, inside)) = Elem-snapshots_of s split.1 ms in
    let (newer, (older, (e, go))) =
      apply_group_retention-removed day week month p (group_by_job snapshots) g mg in
    let sorted = subst IsNewestFirst e (group_by_job-IsNewestFirst snapshots) in
    (newer, (g, (older, (e, (prefix-newer newer g older sorted, (go, (s, (inside, named))))))))
