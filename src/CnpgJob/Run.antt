-- ===== src/CnpgJob/Run.antt =====
-- src/engine/cnpgjob/offlinejob.go: `Run` and its deferred `restoreReconciliation`. Waits and log
-- lines are left out. The answers of the API server are in `Api`, one for each call that the job
-- makes, and one for each round of a loop.
use hasteward.Prelude.{
  ℕ, zero, suc, ◌/◌, String, Bool, true, false, Option, none, some, ◌==◌, if◌then◌else◌,
}
use hasteward.CnpgJob.Annotations.{
  Outcome, Cluster, helper_created, helper_deleted, target_deleted, work_done, emit, commit,
  seen_ok, fence, unfence, set_reconciliation_loop,
}

-- The phase of the helper pod in one poll; `unknown` is a failed read, and counts as Pending.
pub data Phase : Type 0 where
  unknown pending unschedulable running succeeded failed : Phase

pub record Job : Type 0 where
  pub target_pod : String
  pub delete_timeout : ℕ
  pub complete_timeout : ℕ
  -- `OnPVCAcquired != nil`
  pub go_driven : Bool
  pub keep_fenced : Bool

pub record Api : Type 0 where
  pub fence_read : Bool
  pub fence_patch : Outcome
  pub disable : Outcome
  pub create_helper : Outcome
  pub acquire_phase : ℕ → Phase
  pub delete_target : ℕ → Outcome
  -- What `OnPVCAcquired` returns.
  pub work : Bool
  pub complete_phase : ℕ → Phase
  pub delete_helper : Outcome
  pub enable : Outcome
  pub unfence_read : Bool
  pub unfence_patch : Outcome
  pub restore : ℕ → Outcome

pub data Failure : Type 0 where
  fence_failed disable_failed create_failed failed_before_acquiring cannot_schedule : Failure
  never_acquired work_failed helper_failed helper_timed_out unfence_failed : Failure

-- `DeleteTimeoutSec <= 0` is the default; common.DefaultDeleteTimeout is 300.
abbrev pub delete_rounds : Job → ℕ
delete_rounds job = if job.delete_timeout == 0 then 300 else job.delete_timeout

abbrev pub complete_rounds : Job → ℕ
complete_rounds job = (if job.complete_timeout == 0 then 600 else job.complete_timeout) / 5

-- One poll of STEP 4: it ends the loop, or goes on with what the later rounds give.
abbrev pub on_phase : Phase → Option Failure × Cluster → Cluster → Option Failure × Cluster
on_phase running later c = (none, c)
on_phase succeeded later c = (none, c)
on_phase failed later c = (some failed_before_acquiring, c)
on_phase unschedulable later c = (some cannot_schedule, c)
on_phase unknown later c = later
on_phase pending later c = later

-- STEP 4: polls with the rounds that are left; the target is deleted in every round that goes on.
unfoldable pub acquire : Api → ℕ → ℕ → Cluster → Option Failure × Cluster
acquire api zero elapsed c = (some never_acquired, c)
acquire api (suc left) elapsed c =
    on_phase (api.acquire_phase elapsed)
      (acquire api left (suc elapsed) (commit (api.delete_target elapsed) (emit target_deleted) c))
      c

-- STEP 5 in run-once mode.
unfoldable pub await_completion : Api → ℕ → ℕ → Option Failure
await_completion api zero i = some helper_timed_out
await_completion api (suc left) i = elim (api.complete_phase i) [
  | succeeded ↦ none
  | failed ↦ some helper_failed
  | _ ↦ await_completion api left (suc i)
]

-- STEP 5.
unfoldable pub do_work : Job → Api → Cluster → Option Failure × Cluster
do_work job api c =
    if job.go_driven
    then (if api.work then none else some work_failed, emit work_done c)
    else (await_completion api (complete_rounds job) 0, c)

-- What `cleanup` writes: it drops the helper, and leaves the fence.
unfoldable pub cleanup : Api → Bool → Cluster → Cluster
cleanup api helper_exists c =
    if helper_exists then commit api.delete_helper (emit helper_deleted) c else c

-- A step's failure and state, with `reconcileDisabled`.
pub record Exit : Type 0 where
  pub failure : Option Failure
  pub still_disabled : Bool
  pub cluster : Cluster

-- STEP 7.
unfoldable pub hand_back : Job → Api → Bool → Cluster → Exit
hand_back job api still c =
    if job.keep_fenced
    then record { failure = none; still_disabled = still; cluster = c }
    else let (done, c') = unfence api.unfence_read api.unfence_patch job.target_pod c in
      record {
        failure = if done then none else some unfence_failed;
        still_disabled = still;
        cluster = c';
      }

-- The helper is dropped, and STEP 6.
unfoldable pub finish : Job → Api → Cluster → Exit
finish job api c =
    let c' = commit api.delete_helper (emit helper_deleted) c in
    let (enabled, c'') = set_reconciliation_loop api.enable false c' in
    hand_back job api (if enabled then false else true) c''

unfoldable pub after_work : Job → Api → Option Failure × Cluster → Exit
after_work job api (none, c) = finish job api c
after_work job api (some f, c) = record {
  failure = some f;
  still_disabled = true;
  cluster = cleanup api true c;
}

unfoldable pub after_acquire : Job → Api → Option Failure × Cluster → Exit
after_acquire job api (none, c) = after_work job api (do_work job api c)
after_acquire job api (some f, c) = record {
  failure = some f;
  still_disabled = true;
  cluster = cleanup api true c;
}

-- STEP 3 on, with reconciliation disabled.
unfoldable pub handoff : Job → Api → Cluster → Exit
handoff job api c =
    if seen_ok api.create_helper
    then after_acquire job api (acquire api (delete_rounds job) 0 (emit helper_created c))
    else record {
      failure = some create_failed;
      still_disabled = true;
      cluster = commit api.create_helper (emit helper_created) c;
    }

-- STEP 2: an error is ambiguous, so the flag is set on both ways.
unfoldable pub disable_and_handoff : Job → Api → Cluster → Exit
disable_and_handoff job api c =
    let (disabled, c') = set_reconciliation_loop api.disable true c in
    if disabled
    then handoff job api c'
    else record { failure = some disable_failed; still_disabled = true; cluster = c' }

-- The attempts of `restoreReconciliation` that are left, and the number of the next.
unfoldable pub restore_attempts : Api → ℕ → ℕ → Cluster → Cluster
restore_attempts api zero i c = c
restore_attempts api (suc left) i c =
    let (done, c') = set_reconciliation_loop (api.restore i) false c in
    let rest = restore_attempts api left (suc i) c' in if done then c' else rest

unfoldable pub restore_reconciliation : Api → Exit → Cluster
restore_reconciliation api e =
    if e.still_disabled then restore_attempts api 5 0 e.cluster else e.cluster

unfoldable pub run : Job → Api → Cluster → Option Failure × Cluster
run job api c =
    let (done, c') = fence api.fence_read api.fence_patch job.target_pod c in
    if done
    then (
      (disable_and_handoff job api c').failure,
      restore_reconciliation api (disable_and_handoff job api c'),
    )
    else (some fence_failed, c')
