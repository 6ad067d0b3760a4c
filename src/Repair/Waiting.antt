-- ===== src/Repair/Waiting.antt =====
-- src/engine/repair/verify.go, and `VerifyRecovery` of src/engine/repair/cnpg.go and galera.go. What a
-- probe reads, the clock at its check of the deadline, and the context after it are functions of the
-- number of the attempt, from 0.
use hasteward.Prelude.{
  ℕ, zero, suc, ◌+◌, ltb, select, any, String, Bool, true, false, ◌&&◌, not, Option, none, some,
  List, [], ◌∷◌, if◌then◌else◌, str_eq,
}
use hasteward.Triage.{is_empty}

pub data Probed : Type 0 where
  unreadable : Probed
  waiting_on : List String → Probed

-- `pending` is `none` for nil; `failed` says that the error is not nil.
pub record Wait : Type 0 where
  pub pending : Option (List String)
  pub failed : Bool

abbrev pub recovered : Wait
recovered = record { pending = none; failed = false }

pub record Attempts : Type 0 where
  pub probe : ℕ → Probed
  pub clock : ℕ → ℕ
  pub interrupted : ℕ → Bool
  pub interval : ℕ
  pub deadline : ℕ

-- The check of the deadline and of the context after a probe that did not end the wait.
abbrev pub wait_on : Bool → Bool → Wait → Option Wait → Option Wait
wait_on false interrupted w rest = some w
wait_on true true w rest = some (record { pending = w.pending; failed = true })
wait_on true false w rest = rest

abbrev pub after_probe : Probed → Wait → Option Wait
after_probe unreadable w = some (record { pending = w.pending; failed = true })
after_probe (waiting_on []) w = none
after_probe (waiting_on (p ∷ ps)) w = some (record { pending = some (p ∷ ps); failed = false })

-- `none` for fuel that does not last.
unfoldable pub await_from : Attempts → ℕ → ℕ → Wait → Option Wait
await_from a zero i w = none
await_from a (suc fuel) i w = elim (after_probe (a.probe i) w) [
  | none ↦ some recovered
  | some seen ↦
      wait_on (ltb (a.clock i + a.interval) a.deadline) (a.interrupted i) seen
        (await_from a fuel (suc i) seen)
]

unfoldable pub await_recovery : ℕ → Attempts → Option Wait
await_recovery fuel a = await_from a fuel 0 recovered

-- What one attempt of the CNPG verification reads: the current primary, and who streams from it.
pub record Replication : Type 0 where
  pub primary : Option String
  pub streaming : Option (List String)

abbrev pub strands : String → List String → String → Bool
strands primary streaming pod = not (str_eq pod primary) && not (any (str_eq pod) streaming)

-- With the primary's name empty or not.
abbrev pub read_streams : List String → String → Bool → Option (List String) → Probed
read_streams healed p true streaming = unreadable
read_streams healed p false none = unreadable
read_streams healed p false (some streaming) = waiting_on (select (strands p streaming) healed)

abbrev pub read_primary : List String → Option String → Option (List String) → Probed
read_primary healed none streaming = unreadable
read_primary healed (some p) streaming = read_streams healed p (str_eq p "") streaming

unfoldable pub probe_cnpg : List String → Replication → Probed
probe_cnpg healed r = read_primary healed r.primary r.streaming

pub data Verified : Type 0 where
  verified_ok could_not_verify : Verified
  not_recovered : List String → Verified

unfoldable pub verdict_cnpg : Wait → Verified
verdict_cnpg w = elim w.pending [
  | none ↦ if w.failed then could_not_verify else verified_ok
  | some pods ↦ if is_empty pods then verified_ok else not_recovered pods
]

abbrev pub attempts_of : (ℕ → Probed) → Attempts → Attempts
attempts_of probe a = record {
  probe = probe;
  clock = a.clock;
  interrupted = a.interrupted;
  interval = a.interval;
  deadline = a.deadline;
}

abbrev pub judged : (Wait → Verified) → Option Wait → Option Verified
judged verdict none = none
judged verdict (some w) = some (verdict w)

-- The probe of `a` is that of the reads.
unfoldable pub verify_cnpg : ℕ → Attempts → (ℕ → Replication) → List String → Option Verified
verify_cnpg fuel a reads [] = some verified_ok
verify_cnpg fuel a reads (pod ∷ pods) =
    judged verdict_cnpg
      (await_recovery fuel (attempts_of (λ i. probe_cnpg (pod ∷ pods) (reads i)) a))

-- The error of the wait is not looked at.
unfoldable pub verdict_galera : Wait → Verified
verdict_galera w = elim w.pending [
  | none ↦ verified_ok
  | some pods ↦ if is_empty pods then verified_ok else not_recovered pods
]

-- `reads i pod` says that attempt `i` finds the pod ready, connected and in sync.
unfoldable pub verify_galera : ℕ → Attempts → (ℕ → String → Bool) → List String → Option Verified
verify_galera fuel a reads healed =
    judged verdict_galera
      (await_recovery fuel (attempts_of (λ i. waiting_on (select (λ p. not (reads i p)) healed)) a))
