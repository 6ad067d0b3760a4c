-- ===== src/Tests/HealRuns.antt =====
-- A heal by name, and its verification at the second attempt.
use hasteward.Prelude.{ℕ, zero, suc, ◌+◌, ◌*◌, true, false, none, some, [], ◌∷◌, ◌≡◌, refl, arith}
use hasteward.Repair.{
  HealTarget, plan_targeted_cnpg, find_assessment, Attempts, unreadable, Replication, Verified,
  verified_ok, verify_cnpg, await_recovery, await_from, probe_cnpg, verdict_cnpg,
}
use hasteward.Repair.Verifying.{IsFounded, verify_cnpg-IsFounded}
use hasteward.Repair.Aiming.{IsAimed, plan_targeted_cnpg-IsAimed}
use hasteward.Tests.TriageRuns.{frozen}

abbrev reads : ℕ → Replication
reads zero = record { primary = none; streaming = none }
reads (suc i) = record { primary = some "pg-1"; streaming = some ("pg-2" ∷ []) }

abbrev attempts : Attempts
attempts = record {
  probe = λ i. unreadable;
  clock = λ i. i * 5 + 100;
  interrupted = λ i. false;
  interval = 5;
  deadline = 110;
}

waits : verify_cnpg 11 attempts reads ("pg-2" ∷ []) ≡ some verified_ok
unfolding verify_cnpg await_recovery await_from probe_cnpg verdict_cnpg
waits = refl

verify_cnpg-IsFounded_example :
    (v : Verified) × ((verify_cnpg 11 attempts reads ("pg-2" ∷ []) ≡ some v)
      × IsFounded reads ("pg-2" ∷ []) v)
verify_cnpg-IsFounded_example =
    verify_cnpg-IsFounded attempts reads ("pg-2" ∷ []) 10 (λ i. omega arith) (omega arith)
      (omega arith)

abbrev reseed : HealTarget
reseed = record { pod = "pg-2"; remediation = "reseed" }

plan_targeted_cnpg-IsAimed_example : IsAimed frozen "pg-1" "pg-2" false reseed
unfolding plan_targeted_cnpg find_assessment
plan_targeted_cnpg-IsAimed_example =
    plan_targeted_cnpg-IsAimed frozen "pg-1" "pg-2" false true reseed refl
