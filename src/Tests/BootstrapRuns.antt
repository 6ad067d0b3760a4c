-- ===== src/Tests/BootstrapRuns.antt =====
-- A split Galera cluster: two nodes of one lineage, and a candidate alone on another.
use hasteward.Prelude.{
  ℤ, pos, String, Bool, true, false, none, some, List, [], ◌∷◌, ◌≡◌, refl, find,
}
use hasteward.CnpgJob.{Outcome, accepted, refused}
use hasteward.GaleraTriage.Data.{WsrepRecoverResult}
use hasteward.Repair.{sort, insert}
use hasteward.Bootstrap.{
  is_authoritative_recover, Recoveries, add_lineage, fold_lineages, insert_lineage, sort_lineages,
  build_lineage_groups, kept_candidate, best_recovered, select_candidate, NodeRead, BootTriage,
  BootState, caches_removed, flags_removed, BootCalls, OnlineCalls, execute_bootstrap,
  fence_and_choose, choose_and_go, recover_nodes, mark_and_force, after_commit, clean_force,
  clean_status,
}
use hasteward.Bootstrap.Choosing.{IsSoundChoice, select_candidate-IsSoundChoice}

abbrev recover_of : String → ℤ → Bool → WsrepRecoverResult
recover_of uuid seqno valid = record {
  uuid = uuid;
  seqno = seqno;
  last_committed = seqno;
  valid = valid;
}

abbrev split : Recoveries
split =
    ("c-0", recover_of "57a2" (pos 5) true)
    ∷ ("c-1", recover_of "b86f" (pos 9) true)
    ∷ ("c-2", recover_of "b86f" (pos 8) true)
    ∷ []

switches_to_majority : select_candidate "c-0" [] split false ≡ some "c-1"
unfolding select_candidate build_lineage_groups fold_lineages add_lineage sort_lineages
    insert_lineage kept_candidate best_recovered is_authoritative_recover sort insert
switches_to_majority = refl

-- The force flag does not keep the candidate of the minority either.
forced_too : select_candidate "c-0" [] split true ≡ some "c-1"
unfolding select_candidate build_lineage_groups fold_lineages add_lineage sort_lineages
    insert_lineage kept_candidate best_recovered is_authoritative_recover sort insert
forced_too = refl

abbrev unread_leader : Recoveries
unread_leader = ("c-0", recover_of "" (pos 0) false) ∷ ("c-1", recover_of "b86f" (pos 9) true) ∷ []

refuses_loss : select_candidate "c-0" (("c-0", pos 20) ∷ []) unread_leader false ≡ none
unfolding select_candidate build_lineage_groups fold_lineages add_lineage sort_lineages
    insert_lineage kept_candidate best_recovered is_authoritative_recover sort insert
refuses_loss = refl

select_candidate-IsSoundChoice_example :
    IsSoundChoice "c-0" [] split false (build_lineage_groups split) "c-1"
select_candidate-IsSoundChoice_example =
    select_candidate-IsSoundChoice "c-0" [] split false "c-1" (refl, (refl, (refl, tt)))
      switches_to_majority

abbrev node_at : String → ℤ → NodeRead
node_at pod seqno = record {
  pod = pod;
  effective_seqno = seqno;
  safe_to_bootstrap = "0";
  is_running = false;
  is_ready = false;
}

abbrev down_nodes : List NodeRead
down_nodes = node_at "c-0" (pos 5) ∷ node_at "c-1" (pos 9) ∷ node_at "c-2" (pos 8) ∷ []

-- All calls succeed but the ones given.
abbrev calls_with : Outcome → Bool → BootCalls
calls_with scale_up revert = record {
  escrowed = true;
  suspend = accepted;
  set_lock = accepted;
  scale_down = accepted;
  wait_terminated = true;
  wsrep_recover = λ pod. find pod split;
  clears_cache = λ pod. true;
  clears_flag = λ pod. true;
  mark_safe = accepted;
  patch_force = accepted;
  scale_up = scale_up;
  clear_force = true;
  revert_mark = revert;
  clear_lock = true;
  scale_back = true;
  resume = true;
  cleanup_patch = λ i. true;
  cleanup_gone = λ i. true;
  clear_status = λ i. true;
  original_replicas = 3;
}

-- One node is marked from before, and the resource still forces another one.
abbrev left_over : BootState
left_over = record {
  cr_suspended = false;
  lock_set = false;
  replicas = 3;
  marked = "c-0" ∷ [];
  forced = some "c-2";
  recovery_noted = true;
  caches_gone = [];
}

abbrev good_calls : BootCalls
good_calls = calls_with accepted true

committed_to_leader :
    (execute_bootstrap good_calls down_nodes "c-1" false true left_over).committed ≡ some "c-1"
unfolding execute_bootstrap fence_and_choose choose_and_go recover_nodes mark_and_force after_commit
    caches_removed flags_removed clean_force clean_status select_candidate build_lineage_groups
    fold_lineages add_lineage sort_lineages insert_lineage kept_candidate best_recovered
    is_authoritative_recover sort insert
committed_to_leader = refl

-- A scale up that fails with a failing revert leaves the mark.
mark_left :
    (execute_bootstrap
      (calls_with refused false)
      down_nodes
      "c-1"
      false
      true
      left_over).final.marked
    ≡ "c-1" ∷ "c-0" ∷ []
unfolding execute_bootstrap fence_and_choose choose_and_go recover_nodes mark_and_force after_commit
    caches_removed flags_removed clean_force clean_status select_candidate build_lineage_groups
    fold_lineages add_lineage sort_lineages insert_lineage kept_candidate best_recovered
    is_authoritative_recover sort insert
mark_left = refl

abbrev down_triage : BootTriage
down_triage = record {
  nodes_read = down_nodes;
  all_down = true;
  safe_data = false;
  best_seqno_node = some (node_at "c-1" (pos 9));
  deadlock_target = none;
}

abbrev quiet_online : OnlineCalls
quiet_online = record { force_live = accepted; galera_ready = λ i. false; clear_live = true }
