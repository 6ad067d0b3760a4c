-- ===== src/Tests/JobRuns.antt =====
-- An offline job on a server that loses its answers.
use hasteward.Prelude.{◌≡◌, refl, ◌≢◌, true, false, none, some, [], ◌∷◌, arith}
use hasteward.CnpgJob.{
  accepted, committed_unseen, refused, Cluster, is_fenced, running, succeeded, Job, Api, Failure,
  disable_failed, fence_failed, unfence_failed, fence, unfence, set_reconciliation_loop, acquire,
  await_completion, do_work, cleanup, hand_back, finish, after_work, after_acquire, handoff,
  disable_and_handoff, restore_attempts, restore_reconciliation, run,
}
use hasteward.CnpgJob.Reconcile.{run-reconcile_off}
use hasteward.CnpgJob.Fencing.{run-fenced}
use hasteward.CnpgJob.Switches.{IsOrderly}
use hasteward.CnpgJob.Order.{switches_of, run-IsOrderly}

abbrev job : Job
job = record {
  target_pod = "pg-2";
  delete_timeout = 2;
  complete_timeout = 10;
  go_driven = false;
  keep_fenced = false;
}

-- Every call goes through.
abbrev good : Api
good = record {
  fence_read = true;
  fence_patch = accepted;
  disable = accepted;
  create_helper = accepted;
  acquire_phase = λ i. running;
  delete_target = λ i. accepted;
  work = true;
  complete_phase = λ i. succeeded;
  delete_helper = accepted;
  enable = accepted;
  unfence_read = true;
  unfence_patch = accepted;
  restore = λ i. accepted;
}

-- The loop is switched off, but the answer is lost, and no later call is accepted.
abbrev lost : Api
lost = record good { disable = committed_unseen; restore = λ i. refused }

abbrev idle : Cluster
idle = record { fenced = "pg-9" ∷ []; reconcile_off = false; log = [] }

done : (run job good idle).0 ≡ none
unfolding fence unfence set_reconciliation_loop acquire await_completion do_work cleanup hand_back
    finish after_work after_acquire handoff disable_and_handoff restore_attempts
    restore_reconciliation run
done = refl

done_fences : (run job good idle).1.fenced ≡ "pg-9" ∷ []
unfolding fence unfence set_reconciliation_loop acquire await_completion do_work cleanup hand_back
    finish after_work after_acquire handoff disable_and_handoff restore_attempts
    restore_reconciliation run
done_fences = refl

lost_answer : (run job lost idle).0 ≡ some disable_failed
unfolding fence unfence set_reconciliation_loop acquire await_completion do_work cleanup hand_back
    finish after_work after_acquire handoff disable_and_handoff restore_attempts
    restore_reconciliation run
lost_answer = refl

run-reconcile_off_example : lost.restore 3 ≡ refused
unfolding fence unfence set_reconciliation_loop acquire await_completion do_work cleanup hand_back
    finish after_work after_acquire handoff disable_and_handoff restore_attempts
    restore_reconciliation run
run-reconcile_off_example = run-reconcile_off job lost idle refl refl 3 (omega arith)

run-fenced_example :
    ((run job good idle).0 ≡ none
      → is_fenced job.target_pod (run job good idle).1 ≡ job.keep_fenced)
    × ((f : Failure)
        → (run job good idle).0 ≡ some f
        → f ≢ fence_failed
        → f ≢ unfence_failed
        → is_fenced job.target_pod (run job good idle).1 ≡ true)
run-fenced_example = run-fenced job good idle

run-IsOrderly_example : IsOrderly (switches_of job idle) (run job good idle).1.log
run-IsOrderly_example = run-IsOrderly job good idle refl
