-- ===== src/Tests/BreakerRuns.antt =====
-- The deadlock breaker and the escrow of a repair, on the cluster of the triage runs and the store of
-- the escrow runs.
use hasteward.Prelude.{
  ℕ, suc, String, ◌≡◌, refl, ◌≢◌, true, false, inl, inr, some, List, [], ◌∷◌, eq_iff,
}
use hasteward.Model.{undeterminable, TriageResult}
use hasteward.Escrow.{
  exceeds, prepare, capture, gate, add_pvc, add_all, discover_from, discover_pvcs,
  used_bytes_by_pvc,
}
use hasteward.Repair.{
  RecoveryProof, Line, valid, authorizes_clear, hash_assessment, assessment_lines, breaker_proof,
  is_refused, is_breakable, BreakerHooks, broken, pre_assess, clear_each, reclone_each, EscrowHooks,
  run_escrow, dump_diverged, escrow_undumpable, assert_escrow_repo,
}
use hasteward.Repair.Unwedge.{IsSafeClear, pre_assess-IsSafeClear}
use hasteward.Repair.Lineages.{IsGrounded, run_escrow-IsGrounded}
use hasteward.Tests.EscrowRuns.{cfg, csi-IsLawful, store, pod_of}
use hasteward.Tests.TriageRuns.{replica, primary, recovery, frozen}

abbrev digest : List Line → String
digest [] = "none"
digest (l ∷ ls) = "some"

abbrev hooks : BreakerHooks ℕ
hooks = record {
  unwedge = true;
  dry_run = false;
  triage = λ n. (some frozen, n);
  data_pvc_name = λ pod. pod;
  read_pod = λ n. pod_of;
  backend = λ n. store (some 0);
  persist = λ p n. (true, n);
  breaker_config = λ t n. true;
  clear_datadir = λ i n. (true, suc n);
  wait_unfrozen = λ i n. (true, n);
  heal_config = λ n. (true, n);
  heal_instance = λ i n. (true, n);
}

breaks : (pre_assess digest hooks 0).outcome ≡ broken
unfolding pre_assess clear_each reclone_each is_breakable is_refused authorizes_clear valid
    hash_assessment assessment_lines prepare capture exceeds discover_pvcs discover_from add_pvc
    add_all used_bytes_by_pvc
breaks = refl

pre_assess-IsSafeClear_example :
    (t : TriageResult) × ((hooks.triage 0).0 ≡ some t)
    × IsSafeClear digest hooks
        (λ s c. csi-IsLawful)
        "pg-2"
        t
        (hooks.read_pod (hooks.triage 0).1)
        (pre_assess digest hooks 0).actions
unfolding pre_assess clear_each reclone_each is_breakable is_refused authorizes_clear valid
    hash_assessment assessment_lines prepare capture exceeds discover_pvcs discover_from add_pvc
    add_all used_bytes_by_pvc
pre_assess-IsSafeClear_example =
    pre_assess-IsSafeClear digest hooks (λ s c. csi-IsLawful) 0 "pg-2" true (inr (inr (inl refl)))

abbrev proof : RecoveryProof
proof = breaker_proof digest frozen recovery []

digest-nonempty : (lines : List Line) → digest lines ≢ ""
digest-nonempty [] e = let f : false ≡ true = (eq_iff "none" "").1 e in absurd (cc)
digest-nonempty (l ∷ ls) e = let f : false ≡ true = (eq_iff "some" "").1 e in absurd (cc)

-- The second triage finds the roles swapped.
abbrev drifted_cluster : TriageResult
drifted_cluster = record frozen {
  recovery = some (record recovery { authority = "pg-2"; disposable = "pg-1" ∷ [] });
}

abbrev split_brain : TriageResult
split_brain = record frozen {
  assessments = record primary { is_running = true; is_ready = true } ∷ replica ∷ [];
  data_comparison = record {
    most_advanced = "";
    safe_to_heal = false;
    authority = undeterminable;
    primary_members = [];
  };
}

abbrev dumps : EscrowHooks ℕ
dumps = record {
  repo_exists = some true;
  backup_dump = λ kind pod n. (true, suc n);
  data_pvc_name = λ pod. pod;
  read_pod = λ n. pod_of;
  backend = λ n. store (some 0);
}

run_escrow-IsGrounded_example :
    IsGrounded cfg dumps split_brain (run_escrow cfg dumps split_brain "pg-1" 0)
unfolding run_escrow dump_diverged escrow_undumpable assert_escrow_repo gate prepare capture exceeds
    discover_pvcs discover_from add_pvc add_all used_bytes_by_pvc
run_escrow-IsGrounded_example =
    run_escrow-IsGrounded cfg dumps (λ s c. csi-IsLawful) refl split_brain "pg-1" 0 refl refl
