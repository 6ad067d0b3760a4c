-- ===== src/CnpgJob/Fencing.antt =====
-- What the job leaves of the fence, and the order of what it does.
use hasteward.Prelude.{
  ℕ, zero, suc, String, ◌≡◌, refl, subst, ap, ◌≢◌, ◌⊎◌, inl, inr, Bool, true, false, not, Option,
  none, some, List, [], ◌∷◌, ◌++◌, any, select, arith, Bool-cases, if◌then◌else◌, str_eq, eq_iff,
  eq_refl,
}
use hasteward.CnpgJob.Annotations.{
  Outcome, Cluster, helper_created, helper_deleted, target_deleted, is_fenced, seen_ok, commit,
  emit, fence, unfence, set_reconciliation_loop,
}
use hasteward.CnpgJob.Run.{
  Job, Api, Failure, Exit, fence_failed, unfence_failed, disable_failed, create_failed,
  failed_before_acquiring, cannot_schedule, never_acquired, work_failed, helper_failed,
  helper_timed_out, acquire, do_work, cleanup, hand_back, finish, after_work, after_acquire,
  handoff, disable_and_handoff, restore_attempts, restore_reconciliation, run, delete_rounds,
}

any-append : (pod : String) (fs : List String) → any (str_eq pod) (fs ++ pod ∷ []) ≡ true
any-append pod [] = rw eq_refl
any-append pod (f ∷ fs) = ground (arith, any-append pod fs)

any-select :
    (pod : String) (fs : List String)
    → any (str_eq pod) (select (λ f. not (str_eq f pod)) fs) ≡ false
any-select pod [] = refl
any-select pod (f ∷ fs) = ground (arith, any-select pod fs, eq_iff pod f, eq_iff f pod)

-- `Fence` that returns no error leaves the instance fenced.
pub fence_lem :
    (readable : Bool) (o : Outcome) (pod : String) (c : Cluster)
    → (fence readable o pod c).0 ≡ true
    → is_fenced pod (fence readable o pod c).1 ≡ true
unfolding fence
fence_lem readable o pod c h = ground (arith, any-append pod c.fenced)

-- `Unfence` that returns no error leaves the instance unfenced.
pub unfence_lem :
    (readable : Bool) (o : Outcome) (pod : String) (c : Cluster)
    → (unfence readable o pod c).0 ≡ true
    → is_fenced pod (unfence readable o pod c).1 ≡ false
unfolding unfence
unfence_lem readable o pod c h = ground (arith, any-select pod c.fenced)

acquire-fenced : (api : Api) (left i : ℕ) (c : Cluster) → (acquire api left i c).1.fenced ≡ c.fenced
unfolding acquire
acquire-fenced api zero i c = refl
acquire-fenced api (suc left) i c =
    ground (
      arith,
      acquire-fenced api left (suc i) (commit (api.delete_target i) (emit target_deleted) c),
    )

restore_attempts-fenced :
    (api : Api) (left i : ℕ) (c : Cluster) → (restore_attempts api left i c).fenced ≡ c.fenced
unfolding restore_attempts set_reconciliation_loop
restore_attempts-fenced api zero i c = refl
restore_attempts-fenced api (suc left) i c = ground (
  arith,
  restore_attempts-fenced api left (suc i) (set_reconciliation_loop (api.restore i) false c).1,
)

-- How the job ended, in terms of the fence on the target.
abbrev FenceAt : Job → Api → Bool → Exit → Type 0
FenceAt job api before e =
    (e.failure ≡ none
      → is_fenced job.target_pod e.cluster ≡ (if job.keep_fenced then before else false))
    × ((f : Failure)
        → e.failure ≡ some f
        → f ≢ unfence_failed
        → is_fenced job.target_pod e.cluster ≡ before)

hand_back-FenceAt :
    (job : Job) (api : Api) (still : Bool) (c : Cluster)
    → FenceAt job api (is_fenced job.target_pod c) (hand_back job api still c)
unfolding hand_back unfence
hand_back-FenceAt job api still c =
    let gone = any-select job.target_pod c.fenced in
    (λ e. ground (arith, gone), λ f e ne. ground arith)

-- The rest of the job, from a state with the fences of `c`.
finish-FenceAt :
    (job : Job) (api : Api) (c : Cluster)
    → FenceAt job api (is_fenced job.target_pod c) (finish job api c)
unfolding finish set_reconciliation_loop
finish-FenceAt job api c =
    let c' = commit api.delete_helper (emit helper_deleted) c in
    let r = set_reconciliation_loop api.enable false c' in
    let same : r.1.fenced ≡ c.fenced = ground arith in
    subst
      (λ (fs : List String). FenceAt job api (any (str_eq job.target_pod) fs) (finish job api c))
      same (hand_back-FenceAt job api (if r.0 then false else true) r.1)

stopped-FenceAt :
    (job : Job) (api : Api) (f : Failure) (still helper : Bool) (c : Cluster)
    → FenceAt job api
        (is_fenced job.target_pod c)
        (record { failure = some f; still_disabled = still; cluster = cleanup api helper c })
unfolding cleanup
stopped-FenceAt job api f still helper c = (λ e. absurd (cc), λ g e ne. ground arith)

after_work-FenceAt :
    (job : Job) (api : Api) (r : Option Failure) (c : Cluster)
    → FenceAt job api (is_fenced job.target_pod c) (after_work job api (r, c))
unfolding after_work
after_work-FenceAt job api none c = finish-FenceAt job api c
after_work-FenceAt job api (some f) c = stopped-FenceAt job api f true true c

do_work-fenced : (job : Job) (api : Api) (c : Cluster) → (do_work job api c).1.fenced ≡ c.fenced
unfolding do_work
do_work-fenced job api c = ground arith

after_acquire-FenceAt :
    (job : Job) (api : Api) (r : Option Failure) (c : Cluster)
    → FenceAt job api (is_fenced job.target_pod c) (after_acquire job api (r, c))
unfolding after_acquire
after_acquire-FenceAt job api none c =
    let (r, c') = do_work job api c in
    subst
      (λ (fs : List String).
        FenceAt job api (any (str_eq job.target_pod) fs) (after_work job api (r, c')))
      (do_work-fenced job api c) (after_work-FenceAt job api r c')
after_acquire-FenceAt job api (some f) c = stopped-FenceAt job api f true true c

handoff-FenceAt :
    (job : Job) (api : Api) (c : Cluster)
    → FenceAt job api (is_fenced job.target_pod c) (handoff job api c)
unfolding handoff
handoff-FenceAt job api c = elim (Bool-cases (seen_ok api.create_helper)) [
  | inl e ↦
      let start = emit helper_created c in
      let (r, c') = acquire api (delete_rounds job) 0 start in
      rw (e, handoff)
        (subst
          (λ (fs : List String).
            FenceAt job api (any (str_eq job.target_pod) fs) (after_acquire job api (r, c')))
          (acquire-fenced api (delete_rounds job) 0 start) (after_acquire-FenceAt job api r c'))
  | inr e ↦ rw (e, handoff) (λ q. absurd (cc), λ g q ne. ground arith)
]

disable-FenceAt :
    (job : Job) (api : Api) (c : Cluster)
    → FenceAt job api (is_fenced job.target_pod c) (disable_and_handoff job api c)
unfolding disable_and_handoff set_reconciliation_loop
disable-FenceAt job api c =
    let r = set_reconciliation_loop api.disable true c in
    let same : r.1.fenced ≡ c.fenced = ground arith in
    elim (Bool-cases (seen_ok api.disable)) [
      | inl e ↦
          rw (e, disable_and_handoff)
            (subst
              (λ (fs : List String).
                FenceAt job api (any (str_eq job.target_pod) fs) (handoff job api r.1))
              same (handoff-FenceAt job api r.1))
      | inr e ↦ rw (e, disable_and_handoff) (λ q. absurd (cc), λ g q ne. ground arith)
    ]

restore-fenced : (api : Api) (e : Exit) → (restore_reconciliation api e).fenced ≡ e.cluster.fenced
unfolding restore_reconciliation
restore-fenced api e = ground (arith, restore_attempts-fenced api 5 0 e.cluster)

-- A job that succeeds leaves its target fenced exactly when it was asked to keep it so. A job that
-- fails after its fence was written leaves the target fenced, unless what failed is the removal of
-- the fence itself.
pub run-fenced :
    (job : Job) (api : Api) (c : Cluster)
    → ((run job api c).0 ≡ none → is_fenced job.target_pod (run job api c).1 ≡ job.keep_fenced)
      × ((f : Failure)
          → (run job api c).0 ≡ some f
          → f ≢ fence_failed
          → f ≢ unfence_failed
          → is_fenced job.target_pod (run job api c).1 ≡ true)
unfolding run
run-fenced job api c =
    let r = fence api.fence_read api.fence_patch job.target_pod c in
    let x = disable_and_handoff job api r.1 in
    let fences = disable-FenceAt job api r.1 in
    elim (Bool-cases r.0) [
      | inl e ↦
          let before = fence_lem api.fence_read api.fence_patch job.target_pod c e in
          let after = ap (any (str_eq job.target_pod)) (restore-fenced api x) in
          rw (e, run)
            (
              λ q. ground (arith, fences.0 q, before, after),
              λ f q ne ne'. ground (arith, fences.1 f q ne', before, after),
            )
      | inr e ↦ rw (e, run) (λ q. absurd (cc), λ f q ne ne'. absurd (ne (cc)))
    ]

-- A failure of the job, by what it leaves of the fence.
pub failed_fence :
    (f : Failure) {T : Type 0}
    → (f ≢ fence_failed → f ≢ unfence_failed → T)
    → (f ≡ fence_failed) ⊎ ((f ≡ unfence_failed) ⊎ T)
failed_fence fence_failed h = inl refl
failed_fence unfence_failed h = inr (inl refl)
failed_fence disable_failed h = inr (inr (h (λ e. absurd (cc)) (λ e. absurd (cc))))
failed_fence create_failed h = inr (inr (h (λ e. absurd (cc)) (λ e. absurd (cc))))
failed_fence failed_before_acquiring h = inr (inr (h (λ e. absurd (cc)) (λ e. absurd (cc))))
failed_fence cannot_schedule h = inr (inr (h (λ e. absurd (cc)) (λ e. absurd (cc))))
failed_fence never_acquired h = inr (inr (h (λ e. absurd (cc)) (λ e. absurd (cc))))
failed_fence work_failed h = inr (inr (h (λ e. absurd (cc)) (λ e. absurd (cc))))
failed_fence helper_failed h = inr (inr (h (λ e. absurd (cc)) (λ e. absurd (cc))))
failed_fence helper_timed_out h = inr (inr (h (λ e. absurd (cc)) (λ e. absurd (cc))))
