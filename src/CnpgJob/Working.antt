-- ===== src/CnpgJob/Working.antt =====
-- A job that succeeds has done its work (src/engine/cnpgjob/offlinejob.go).
use hasteward.Prelude.{◌≡◌, refl, true, Option, none, some, Bool-cases, inl, inr, arith}
use hasteward.CnpgJob.Annotations.{
  Cluster, seen_ok, emit, helper_created, fence, set_reconciliation_loop,
}
use hasteward.CnpgJob.Run.{
  Job, Api, Failure, acquire, do_work, after_work, after_acquire, handoff, disable_and_handoff, run,
  delete_rounds,
}

module _ (job : Job) (api : Api) where
  after_work-none :
      (r : Option Failure × Cluster) → (after_work job api r).failure ≡ none → r.0 ≡ none
  unfolding after_work
  after_work-none (none, c) h = refl
  after_work-none (some f, c) h = absurd (cc)

  do_work-works :
      (c : Cluster) → job.go_driven ≡ true → (do_work job api c).0 ≡ none → api.work ≡ true
  unfolding do_work
  do_work-works c driven h = ground arith

  after_acquire-works :
      (r : Option Failure × Cluster)
      → job.go_driven ≡ true
      → (after_acquire job api r).failure ≡ none
      → api.work ≡ true
  unfolding after_acquire
  after_acquire-works (some f, c) driven h = absurd (cc)
  after_acquire-works (none, c) driven h =
      do_work-works c driven (after_work-none (do_work job api c) h)

  handoff-works :
      (c : Cluster) → job.go_driven ≡ true → (handoff job api c).failure ≡ none → api.work ≡ true
  unfolding handoff
  handoff-works c driven h = elim (Bool-cases (seen_ok api.create_helper)) [
    | inl e ↦
        after_acquire-works (acquire api (delete_rounds job) 0 (emit helper_created c)) driven
          (rw e at h)
    | inr e ↦ absurd (ground arith)
  ]

  disable-works :
      (c : Cluster)
      → job.go_driven ≡ true
      → (disable_and_handoff job api c).failure ≡ none
      → api.work ≡ true
  unfolding disable_and_handoff
  disable-works c driven h = elim (Bool-cases (set_reconciliation_loop api.disable true c).0) [
    | inl e ↦ handoff-works (set_reconciliation_loop api.disable true c).1 driven (rw e at h)
    | inr e ↦ absurd (ground arith)
  ]

  pub run-works : (c : Cluster) → job.go_driven ≡ true → (run job api c).0 ≡ none → api.work ≡ true
  unfolding run
  run-works c driven h =
      elim (Bool-cases (fence api.fence_read api.fence_patch job.target_pod c).0) [
        | inl e ↦
            disable-works (fence api.fence_read api.fence_patch job.target_pod c).1 driven
              (rw e at h)
        | inr e ↦ absurd (ground arith)
      ]
