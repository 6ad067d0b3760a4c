-- ===== src/CnpgJob/Order.antt =====
-- The order of what the job does: the instance pod is deleted and its volume handed over only while
-- the instance is fenced and the operator does not reconcile.
use hasteward.Prelude.{
  ℕ, zero, suc, String, ◌≡◌, refl, ◌∙◌, ap, Bool, true, false, Option, none, some, [], ◌∷◌, ◌++◌,
  Bool-cases, inl, inr, if◌then◌else◌,
}
use hasteward.CnpgJob.Annotations.{
  Outcome, accepted, committed_unseen, refused, Cluster, Event, fence_written, reconcile_disabled,
  reconcile_enabled, unfence_written, helper_created, helper_deleted, work_done, is_fenced, seen_ok,
  commit, emit, fence, unfence, set_reconciliation_loop,
}
use hasteward.CnpgJob.Run.{
  Job, Api, Failure, disable_failed, Exit, acquire, do_work, cleanup, hand_back, finish, after_work,
  after_acquire, handoff, disable_and_handoff, restore_attempts, restore_reconciliation, run,
  delete_rounds,
}
use hasteward.CnpgJob.Switches.{
  Switches, after_event, IsAllowed, IsOrderly, IsOrderly-snoc, after_log-snoc, IsAt, IsAt-emit,
  held, IsAt-commit, acquire-IsAt,
}

-- What comes after the work is allowed at any time.
IsOrderly-commit :
    (start : Switches) (o : Outcome) (e : Event) (c : Cluster)
    → ((s : Switches) → IsAllowed e s)
    → IsOrderly start c.log
    → IsOrderly start (commit o (emit e) c).log
IsOrderly-commit start accepted e c a h = IsOrderly-snoc start c.log e h (a _)
IsOrderly-commit start committed_unseen e c a h = IsOrderly-snoc start c.log e h (a _)
IsOrderly-commit start refused e c a h = h

IsOrderly-enable :
    (start : Switches) (o : Outcome) (c : Cluster)
    → IsOrderly start c.log
    → IsOrderly start (set_reconciliation_loop o false c).1.log
unfolding set_reconciliation_loop
IsOrderly-enable start accepted c h = IsOrderly-snoc start c.log reconcile_enabled h tt
IsOrderly-enable start committed_unseen c h = IsOrderly-snoc start c.log reconcile_enabled h tt
IsOrderly-enable start refused c h = h

IsOrderly-unfence :
    (start : Switches) (readable : Bool) (o : Outcome) (pod : String) (c : Cluster)
    → IsOrderly start c.log
    → IsOrderly start (unfence readable o pod c).1.log
unfolding unfence
IsOrderly-unfence start false o pod c h = h
IsOrderly-unfence start true accepted pod c h = IsOrderly-snoc start c.log unfence_written h tt
IsOrderly-unfence start true committed_unseen pod c h =
    IsOrderly-snoc start c.log unfence_written h tt
IsOrderly-unfence start true refused pod c h = h

finish-IsOrderly :
    (start : Switches) (job : Job) (api : Api) (c : Cluster)
    → IsOrderly start c.log
    → IsOrderly start (finish job api c).cluster.log
unfolding finish hand_back
finish-IsOrderly start job api c h =
    let dropped = commit api.delete_helper (emit helper_deleted) c in
    let k = IsOrderly-commit start api.delete_helper helper_deleted c (λ s. tt) h in
    let on = set_reconciliation_loop api.enable false dropped in
    let m = IsOrderly-enable start api.enable dropped k in
    elim (Bool-cases job.keep_fenced) [
      | inl e ↦ rw (e, finish, hand_back) m
      | inr e ↦
          rw (e, finish, hand_back)
            (IsOrderly-unfence start api.unfence_read api.unfence_patch job.target_pod on.1 m)
    ]

after_work-IsOrderly :
    (start : Switches) (job : Job) (api : Api) (r : Option Failure) (c : Cluster)
    → IsOrderly start c.log
    → IsOrderly start (after_work job api (r, c)).cluster.log
unfolding after_work cleanup
after_work-IsOrderly start job api none c h = finish-IsOrderly start job api c h
after_work-IsOrderly start job api (some f) c h =
    IsOrderly-commit start api.delete_helper helper_deleted c (λ s. tt) h

do_work-IsAt :
    (start : Switches) (job : Job) (api : Api) (c : Cluster)
    → IsAt start held c
    → IsAt start held (do_work job api c).1
unfolding do_work
do_work-IsAt start job api c h = elim (Bool-cases job.go_driven) [
  | inl e ↦ rw (e, do_work) (IsAt-emit start held c work_done h (refl, refl))
  | inr e ↦ rw (e, do_work) h
]

after_acquire-IsOrderly :
    (start : Switches) (job : Job) (api : Api) (r : Option Failure) (c : Cluster)
    → IsAt start held c
    → IsOrderly start (after_acquire job api (r, c)).cluster.log
unfolding after_acquire cleanup
after_acquire-IsOrderly start job api none c h =
    let (r, c') = do_work job api c in
    after_work-IsOrderly start job api r c' (do_work-IsAt start job api c h).orderly
after_acquire-IsOrderly start job api (some f) c h =
    IsOrderly-commit start api.delete_helper helper_deleted c (λ s. tt) h.orderly

handoff-IsOrderly :
    (start : Switches) (job : Job) (api : Api) (c : Cluster)
    → IsAt start held c
    → IsOrderly start (handoff job api c).cluster.log
unfolding handoff
handoff-IsOrderly start job api c h = elim (Bool-cases (seen_ok api.create_helper)) [
  | inl e ↦
      let created = IsAt-emit start held c helper_created h (refl, refl) in
      let (r, c') = acquire api (delete_rounds job) 0 (emit helper_created c) in
      rw (e, handoff)
        (after_acquire-IsOrderly start job api r c'
          (acquire-IsAt start api (delete_rounds job) 0 _ created))
  | inr e ↦
      rw (e, handoff)
        (IsAt-commit start held c helper_created api.create_helper h (refl, refl) refl).orderly
]

disable-IsAt :
    (start : Switches) (off : Bool) (c : Cluster)
    → IsAt start (record { off = off; fenced = true }) c
    → IsAt start held (set_reconciliation_loop accepted true c).1
unfolding set_reconciliation_loop
disable-IsAt start off c h = record {
  orderly = IsOrderly-snoc start c.log reconcile_disabled h.orderly tt;
  told = after_log-snoc start c.log reconcile_disabled ∙ ap (after_event reconcile_disabled) h.told;
}

disabled-IsOrderly :
    (start : Switches) (off : Bool) (job : Job) (api : Api) (c : Cluster) (o : Outcome)
    → IsAt start (record { off = off; fenced = true }) c
    → let r = set_reconciliation_loop o true c in
      IsOrderly start
        (if r.0 then handoff job api r.1 else record {
          failure = some disable_failed;
          still_disabled = true;
          cluster = r.1;
        }).cluster.log
disabled-IsOrderly start off job api c accepted h =
    let at = disable-IsAt start off c h in
    unfold set_reconciliation_loop in handoff-IsOrderly start job api _ at
disabled-IsOrderly start off job api c committed_unseen h =
    unfold set_reconciliation_loop in IsOrderly-snoc start c.log reconcile_disabled h.orderly tt
disabled-IsOrderly start off job api c refused h = unfold set_reconciliation_loop in h.orderly

disable_and_handoff-IsOrderly :
    (start : Switches) (off : Bool) (job : Job) (api : Api) (c : Cluster)
    → IsAt start (record { off = off; fenced = true }) c
    → IsOrderly start (disable_and_handoff job api c).cluster.log
unfolding disable_and_handoff
disable_and_handoff-IsOrderly start off job api c h =
    disabled-IsOrderly start off job api c api.disable h

restore_attempts-IsOrderly :
    (start : Switches) (api : Api) (left i : ℕ) (c : Cluster)
    → IsOrderly start c.log
    → IsOrderly start (restore_attempts api left i c).log
unfolding restore_attempts
restore_attempts-IsOrderly start api zero i c h = h
restore_attempts-IsOrderly start api (suc left) i c h =
    let (done, c') = set_reconciliation_loop (api.restore i) false c in
    let now = IsOrderly-enable start (api.restore i) c h in
    elim (Bool-cases done) [
      | inl e ↦ rw (e, restore_attempts) now
      | inr e ↦ rw (e, restore_attempts) (restore_attempts-IsOrderly start api left (suc i) c' now)
    ]

-- The switches of a cluster as the job finds it.
abbrev pub switches_of : Job → Cluster → Switches
switches_of job c = record { off = c.reconcile_off; fenced = is_fenced job.target_pod c }

fence-IsAt :
    (readable : Bool) (o : Outcome) (job : Job) (c : Cluster)
    → c.log ≡ []
    → (fence readable o job.target_pod c).0 ≡ true
    → IsAt
        (switches_of job c)
        (record { off = c.reconcile_off; fenced = true })
        (fence readable o job.target_pod c).1
unfolding fence
fence-IsAt false o job c e h = absurd (cc)
fence-IsAt true o job c e h = elim (Bool-cases (is_fenced job.target_pod c)) [
  | inl already ↦ rw (already, fence) (record { orderly = rw e tt; told = rw e })
  | inr new ↦ rw (new, fence) (patched o (rw (new, fence) at h))
]
  where
    patched :
        (o' : Outcome)
        → seen_ok o' ≡ true
        → IsAt
            (record { off = c.reconcile_off; fenced = false })
            (record { off = c.reconcile_off; fenced = true })
            (commit o'
              (λ d. record d {
                fenced = d.fenced ++ job.target_pod ∷ [];
                log = d.log ++ fence_written ∷ [];
              })
              c)
    patched accepted s = record { orderly = rw e (tt, tt); told = rw e }
    patched committed_unseen s = absurd (cc)
    patched refused s = absurd (cc)

fence-IsOrderly :
    (readable : Bool) (o : Outcome) (job : Job) (c : Cluster) (start : Switches)
    → c.log ≡ []
    → IsOrderly start (fence readable o job.target_pod c).1.log
unfolding fence
fence-IsOrderly false o job c start e = rw e tt
fence-IsOrderly true o job c start e = elim (Bool-cases (is_fenced job.target_pod c)) [
  | inl already ↦ rw (already, fence) (rw e tt)
  | inr new ↦ rw (new, fence) (patched o)
]
  where
    patched :
        (o' : Outcome)
        → IsOrderly start
            (commit o'
              (λ d. record d {
                fenced = d.fenced ++ job.target_pod ∷ [];
                log = d.log ++ fence_written ∷ [];
              })
              c).log
    patched accepted = rw e (tt, tt)
    patched committed_unseen = rw e (tt, tt)
    patched refused = rw e tt

restore-IsOrderly :
    (start : Switches) (api : Api) (x : Exit)
    → IsOrderly start x.cluster.log
    → IsOrderly start (restore_reconciliation api x).log
unfolding restore_reconciliation
restore-IsOrderly start api x h = elim (Bool-cases x.still_disabled) [
  | inl e ↦ rw (e, restore_reconciliation) (restore_attempts-IsOrderly start api 5 0 x.cluster h)
  | inr e ↦ rw (e, restore_reconciliation) h
]

-- Whatever the server answers, the job creates its helper, deletes the instance pod and does its
-- work only while the instance is fenced and the reconciliation loop is off.
pub run-IsOrderly :
    (job : Job) (api : Api) (c : Cluster)
    → c.log ≡ []
    → IsOrderly (switches_of job c) (run job api c).1.log
unfolding run
run-IsOrderly job api c e =
    let r = fence api.fence_read api.fence_patch job.target_pod c in
    let start = switches_of job c in
    elim (Bool-cases r.0) [
      | inl q ↦
          rw (q, run)
            (restore-IsOrderly start api _ (
              disable_and_handoff-IsOrderly start c.reconcile_off job api r.1
                (fence-IsAt api.fence_read api.fence_patch job c e q)))
      | inr q ↦ rw (q, run) (fence-IsOrderly api.fence_read api.fence_patch job c start e)
    ]
