-- ===== src/GaleraTriage/DeepRecovery.antt =====
-- `maybeDeepRecover`, `anyServing`, `deepRecover` and `isAnythingAlive` of
-- src/engine/triage/galera.go: the fenced recovery of a cluster in which nothing serves. The calls of
-- the cluster's interface are parameters; an event stands for a call that took effect.
use hasteward.Prelude.{
  ℕ, pos, int_ltb, any, String, Bool, true, false, ◌||◌, not, Option, none, some, List, [], ◌∷◌,
  ◌++◌, if◌then◌else◌, str_eq,
}
use hasteward.CnpgJob.{Outcome, accepted, committed_unseen, refused}
use hasteward.Triage.{is_empty}
use hasteward.GaleraTriage.Data.{
  Grastate, WsrepReading, WsrepRecoverResult, RunningPod, GaleraTriageData,
}

pub data FenceEvent : Type 0 where
  lock_taken lock_cleared cr_suspended cr_resumed pods_terminated recovery_pods_deleted : FenceEvent
  scaled : ℕ → FenceEvent
  recover_run : String → FenceEvent

pub record FenceCalls : Type 0 where
  -- `AcquireFenceLock`: a lock that was not acquired is as one refused. An error may come back although
  -- the write took effect, here and in the two calls below.
  pub acquire : Outcome
  pub suspend : Outcome
  pub scale_down : Outcome
  pub wait_ok : Bool
  pub run_wsrep_recover : String → Option WsrepRecoverResult
  pub scale_up_ok : Bool
  pub resume_ok : Bool
  pub clear_ok : Bool
  pub replicas : ℕ
  pub root_password_set : Bool
  -- The authenticated `SELECT 1` on a pod answers.
  pub answers : String → Bool

abbrev pub Recovered : Type 0
Recovered = List (String × WsrepRecoverResult)

-- `data.wsrepRecovered[pod] = rr`; a lookup finds the newest entry.
abbrev pub record_position : String → Option WsrepRecoverResult → Recovered → Recovered
record_position pod none m = m
record_position pod (some r) m = (pod, r) ∷ m

unfoldable pub recover_each : FenceCalls → List Grastate → Recovered → List FenceEvent × Recovered
recover_each e [] m = (recovery_pods_deleted ∷ [], m)
recover_each e (g ∷ gs) m =
    let rest = recover_each e gs (record_position g.pod (e.run_wsrep_recover g.pod) m) in
    (recover_run g.pod ∷ rest.0, rest.1)

abbrev pub when : Bool → FenceEvent → List FenceEvent
when ok event = if ok then event ∷ [] else []

-- A call with its event and its deferred undoing, around a body that runs only if the call returns no
-- error: with an error nothing is deferred, even if the call took effect.
abbrev pub around :
    Outcome
    → FenceEvent
    → List FenceEvent
    → List FenceEvent × Recovered
    → Recovered
    → List FenceEvent × Recovered
around accepted event after body m = (event ∷ (body.0 ++ after), body.1)
around committed_unseen event after body m = (event ∷ [], m)
around refused event after body m = ([], m)

abbrev pub awaited : Bool → List FenceEvent × Recovered → Recovered → List FenceEvent × Recovered
awaited true body m = (pods_terminated ∷ body.0, body.1)
awaited false body m = ([], m)

unfoldable pub after_scale_down :
    FenceCalls → List Grastate → Recovered → List FenceEvent × Recovered
after_scale_down e gs m = awaited e.wait_ok (recover_each e gs m) m

unfoldable pub after_suspend : FenceCalls → List Grastate → Recovered → List FenceEvent × Recovered
after_suspend e gs m =
    around e.scale_down (scaled 0) (when e.scale_up_ok (scaled e.replicas))
      (after_scale_down e gs m) m

abbrev pub after_deletion : FenceCalls → List Grastate → Recovered → List FenceEvent × Recovered
after_deletion e gs m = let rest = after_suspend e gs m in (recovery_pods_deleted ∷ rest.0, rest.1)

unfoldable pub after_fence_lock :
    FenceCalls → List Grastate → Recovered → List FenceEvent × Recovered
after_fence_lock e gs m =
    around e.suspend cr_suspended (when e.resume_ok cr_resumed) (after_deletion e gs m) m

unfoldable pub deep_recover : FenceCalls → List Grastate → Recovered → List FenceEvent × Recovered
deep_recover e gs m =
    around e.acquire lock_taken (when e.clear_ok lock_cleared) (after_fence_lock e gs m) m

unfoldable pub any_serving : FenceCalls → List RunningPod → Bool
any_serving e pods = if not e.root_password_set then true else any (λ p. e.answers p.name) pods

abbrev pub participates : String × WsrepReading → Bool
participates (name, ws) = str_eq ws.cluster_status "Primary" || not (int_ltb ws.local_state (pos 1))

unfoldable pub is_anything_alive : GaleraTriageData → Bool
is_anything_alive d =
    if not (is_empty d.primary_members)
    then true
    else if any (λ p. p.mariadb_ready) d.running_pods
    then true
    else any participates d.wsrep_map

abbrev pub must_not_fence : FenceCalls → GaleraTriageData → Bool
must_not_fence e d =
    is_anything_alive d || (is_empty d.grastate_data || any_serving e d.running_pods)

unfoldable pub maybe_deep_recover : FenceCalls → GaleraTriageData → List FenceEvent × Recovered
maybe_deep_recover e d =
    if must_not_fence e d
    then ([], d.wsrep_recovered)
    else deep_recover e d.grastate_data d.wsrep_recovered
