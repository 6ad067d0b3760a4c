-- ===== src/CnpgJob/Reconcile.antt =====
-- The reconciliation loop is switched back on, on every way out of the job.
use hasteward.Prelude.{
  ℕ, zero, suc, String, ◌+◌, ◌<◌, ◌≡◌, refl, Bool, true, false, Option, none, some, arith,
  Bool-cases, inl, inr,
}
use hasteward.CnpgJob.Annotations.{
  Outcome, accepted, committed_unseen, refused, Cluster, fence, unfence, set_reconciliation_loop,
  emit, helper_created,
}
use hasteward.CnpgJob.Run.{
  Job, Api, Failure, Exit, acquire, do_work, hand_back, finish, after_work, after_acquire, handoff,
  disable_and_handoff, restore_attempts, restore_reconciliation, run, delete_rounds,
}

-- A cluster that the job leaves unreconciled is known to the deferred restore.
abbrev IsTracked : Exit → Type 0
IsTracked e = e.cluster.reconcile_off ≡ true → e.still_disabled ≡ true

hand_back-IsTracked :
    (job : Job) (api : Api) (still : Bool) (c : Cluster)
    → (c.reconcile_off ≡ true → still ≡ true)
    → IsTracked (hand_back job api still c)
unfolding hand_back unfence
hand_back-IsTracked job api still c h off = ground (arith, h)

finish-IsTracked : (job : Job) (api : Api) (c : Cluster) → IsTracked (finish job api c)
unfolding finish set_reconciliation_loop
finish-IsTracked job api c = hand_back-IsTracked job api _ _ (λ off. ground arith)

after_work-IsTracked :
    (job : Job) (api : Api) (r : Option Failure) (c : Cluster)
    → IsTracked (after_work job api (r, c))
unfolding after_work
after_work-IsTracked job api none c = finish-IsTracked job api c
after_work-IsTracked job api (some f) c = λ off. refl

after_acquire-IsTracked :
    (job : Job) (api : Api) (r : Option Failure) (c : Cluster)
    → IsTracked (after_acquire job api (r, c))
unfolding after_acquire
after_acquire-IsTracked job api none c =
    let (r, c') = do_work job api c in after_work-IsTracked job api r c'
after_acquire-IsTracked job api (some f) c = λ off. refl

handoff-IsTracked : (job : Job) (api : Api) (c : Cluster) → IsTracked (handoff job api c)
unfolding handoff
handoff-IsTracked job api c =
    let (r, c') = acquire api (delete_rounds job) 0 (emit helper_created c) in
    let h = after_acquire-IsTracked job api r c' in ground (arith, h)

disable-IsTracked :
    (job : Job) (api : Api) (c : Cluster) → IsTracked (disable_and_handoff job api c)
unfolding disable_and_handoff
disable-IsTracked job api c =
    let (done, c') = set_reconciliation_loop api.disable true c in
    let h = handoff-IsTracked job api c' in ground (arith, h)

-- One attempt that did not switch the loop on was refused.
attempt-refused :
    (o : Outcome) (c : Cluster)
    → (set_reconciliation_loop o false c).1.reconcile_off ≡ true
    → (o ≡ refused) × (c.reconcile_off ≡ true)
unfolding set_reconciliation_loop
attempt-refused accepted c h = absurd (cc)
attempt-refused committed_unseen c h = absurd (cc)
attempt-refused refused c h = (refl, h)

-- The safety net leaves the loop off only if the server refused each of its attempts.
restore_attempts-off :
    (api : Api) (left i : ℕ) (c : Cluster)
    → (restore_attempts api left i c).reconcile_off ≡ true
    → (c.reconcile_off ≡ true) × ((k : ℕ) → k < left → api.restore (i + k) ≡ refused)
unfolding restore_attempts
restore_attempts-off api zero i c h = (h, λ k l. absurd (omega arith))
restore_attempts-off api (suc left) i c h =
    let (done, c') = set_reconciliation_loop (api.restore i) false c in
    let ih = restore_attempts-off api left (suc i) c' in
    elim (Bool-cases done) [
      | inl e ↦ let r = attempt-refused (api.restore i) c (rw e at h) in absurd (go r.0 e)
      | inr e ↦
          let later = ih (rw e at h) in
          let r = attempt-refused (api.restore i) c later.0 in (r.1, step r.0 later.1)
    ]
  where
    step :
        api.restore i ≡ refused
        → ((k : ℕ) → k < left → api.restore (suc i + k) ≡ refused)
        → (k : ℕ) → k < suc left
        → api.restore (i + k) ≡ refused
    step r later zero l = let e : i + 0 ≡ i = omega arith in rw e r
    step r later (suc k) l =
        let e : i + suc k ≡ suc i + k = omega arith in rw e (later k (omega arith))

    go : api.restore i ≡ refused → (set_reconciliation_loop (api.restore i) false c).0 ≡ true → ⊥
    go r e = unfold set_reconciliation_loop in ground arith

restore-off :
    (api : Api) (e : Exit)
    → IsTracked e
    → (restore_reconciliation api e).reconcile_off ≡ true
    → (k : ℕ) → k < 5
    → api.restore k ≡ refused
unfolding restore_reconciliation
restore-off api e tracked off k l = elim (Bool-cases e.still_disabled) [
  | inl d ↦
      let r = (restore_attempts-off api 5 0 e.cluster (rw d at off)).1 k l in
      let z : 0 + k ≡ k = omega arith in rw z at r
  | inr d ↦ absurd (ground (arith, tracked))
]

fence-reconcile :
    (readable : Bool) (o : Outcome) (pod : String) (c : Cluster)
    → (fence readable o pod c).1.reconcile_off ≡ c.reconcile_off
unfolding fence
fence-reconcile readable o pod c = ground arith

-- On a cluster whose reconciliation loop is on, the job leaves the loop off only if the server
-- refused all five attempts of the deferred restore, whatever else failed and wherever it stopped.
pub run-reconcile_off :
    (job : Job) (api : Api) (c : Cluster)
    → c.reconcile_off ≡ false
    → (run job api c).1.reconcile_off ≡ true
    → (k : ℕ) → k < 5
    → api.restore k ≡ refused
unfolding run
run-reconcile_off job api c on off k l =
    let (done, c') = fence api.fence_read api.fence_patch job.target_pod c in
    elim (Bool-cases done) [
      | inl e ↦
          restore-off api (disable_and_handoff job api c') (disable-IsTracked job api c')
            (rw e at off) k l
      | inr e ↦
          absurd (
            ground (arith, fence-reconcile api.fence_read api.fence_patch job.target_pod c, off, e))
    ]
