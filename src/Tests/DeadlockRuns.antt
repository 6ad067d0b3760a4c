-- ===== src/Tests/DeadlockRuns.antt =====
-- A full primary whose WAL is replayed in place, with one replica that received all of it.
use hasteward.Prelude.{pos, codes, String, true, false, none, some, List, [], ◌∷◌, ◌++◌, ◌≡◌, refl}
use hasteward.CnpgJob.{accepted, Cluster, running, succeeded, Api}
use hasteward.PruneWal.{
  Codes, split_lines, has_prefix, contains_codes, last_field, last_field_from, trim_space,
  trim_left, trim_right, parse_lsn, parse_uint, scan_hex, cut, join_words, bit_or,
}
use hasteward.Deadlock.{
  Helper, InstancePod, InstancePos, read_replica_positions, Rescue, parse_control_state,
  parse_redo_done, parse_int, scan_decimal, scan_fields, after_colon, read_control_lines,
  drop_prefix, after_marker, trim_marks, read_each, safe_to_release_recovered_primary,
  deadlock_recover_on_pvc, deadlock_recover, ClusterStatus,
}
use hasteward.Deadlock.Trimming.{IsTrimmed, deadlock_recover_on_pvc-IsTrimmed}
use hasteward.Deadlock.Releasing.{IsKept, deadlock_recover-IsKept}

abbrev control_text : Codes
control_text =
    codes "Database cluster state:               shut down"
    ++ 10 ∷ codes "Latest checkpoint's REDO WAL file:    0000000200000000000000AB"
    ++ 10 ∷ codes "Latest checkpoint's TimeLineID:       2"

abbrev replay_text : Codes
replay_text = codes "LOG:  redo done at 0/AB000060, 3 s" ++ 10 ∷ codes "LOG:  checkpoint complete"

control_is_read : (parse_control_state control_text).timeline ≡ pos 2
unfolding parse_control_state read_control_lines split_lines has_prefix contains_codes last_field
    last_field_from trim_space trim_left trim_right after_colon parse_int scan_decimal
control_is_read = refl

redo_is_read : parse_redo_done replay_text ≡ some 2868904032
unfolding parse_redo_done after_marker drop_prefix has_prefix scan_fields trim_marks parse_lsn
    parse_uint scan_hex cut join_words bit_or trim_space trim_left trim_right
redo_is_read = refl

abbrev helper : Helper
helper = record {
  relocate = true;
  replay = some replay_text;
  control_data = some control_text;
  archive_cleanup = true;
  move_back = true;
}

deadlock_recover_on_pvc-IsTrimmed_example : IsTrimmed helper (deadlock_recover_on_pvc helper)
deadlock_recover_on_pvc-IsTrimmed_example = deadlock_recover_on_pvc-IsTrimmed helper

abbrev replica_at : String → InstancePod
replica_at text = record { name = "pg-1"; is_serving = true; printed = some (codes text) }

abbrev good_api : Api
good_api = record {
  fence_read = true;
  fence_patch = accepted;
  disable = accepted;
  create_helper = accepted;
  acquire_phase = λ i. running;
  delete_target = λ i. accepted;
  work = true;
  complete_phase = λ i. succeeded;
  delete_helper = accepted;
  enable = accepted;
  unfence_read = true;
  unfence_patch = accepted;
  restore = λ i. accepted;
}

abbrev healthy_status : ClusterStatus
healthy_status = record {
  current_primary = "pg-1";
  target_primary = "pg-1";
  ready_instances = 2;
  primary_is_ready = true;
}

abbrev rescue_beside : String → Rescue
rescue_beside text = record {
  target_pod = "pg-2";
  delete_timeout = 2;
  is_primary = true;
  dry_run = false;
  no_escrow = true;
  escrow_gate = none;
  image_known = true;
  scratch_known = true;
  helper = helper;
  replica_pods = some (replica_at text ∷ []);
  api = good_api;
  release_read = true;
  release_patch = accepted;
  instances = 2;
  poll = λ i. some healthy_status;
}

abbrev quiet : Cluster
quiet = record { fenced = []; reconcile_off = false; log = [] }

abbrev at_end : InstancePos
at_end = record { pod = "pg-2"; timeline = pos 2; lsn = 2868904032 }

abbrev read_from : String → List InstancePos
read_from text = read_replica_positions "pg-2" (some (replica_at text ∷ []))

releasable : safe_to_release_recovered_primary at_end (read_from "2 0/AB000060") ≡ true
unfolding scan_fields parse_int scan_decimal parse_lsn parse_uint scan_hex cut join_words bit_or
    trim_space trim_left trim_right read_each safe_to_release_recovered_primary
releasable = refl

-- A replica on the timeline before is no proof.
not_releasable : safe_to_release_recovered_primary at_end (read_from "1 0/AB000060") ≡ false
unfolding scan_fields parse_int scan_decimal parse_lsn parse_uint scan_hex cut join_words bit_or
    trim_space trim_left trim_right read_each safe_to_release_recovered_primary
not_releasable = refl

deadlock_recover-IsKept_example :
    IsKept
      (rescue_beside "2 0/AB000060")
      quiet
      (deadlock_recover (rescue_beside "2 0/AB000060") quiet)
deadlock_recover-IsKept_example = deadlock_recover-IsKept (rescue_beside "2 0/AB000060") quiet
