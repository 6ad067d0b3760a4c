-- ===== src/Tests/LockRuns.antt =====
-- Three operations on one lock: the first is late, and its release drops the lease of the second.
use hasteward.Prelude.{◌≢◌, true, false, none, some, ◌≡◌, refl, String, arith, eq_iff}
use hasteward.Lock.{
  LockState, LockReach, begins, looks, writes, unlocked, start, later, begun, looked, enter, tick,
  held_since, lease_held_by_other, acquire_cluster_lock, release_lock,
}
use hasteward.Lock.Exclusion.{LockReach-exclusive}

abbrev repair : String
repair = "repair"

abbrev begun_state : LockState
begun_state = enter repair (begun 0) unlocked

abbrev looked_state : LockState
looked_state = enter repair (looked 0 none) begun_state

abbrev locked_state : LockState
locked_state = acquire_cluster_lock repair 0 2000000000 none true looked_state

repair_is_named : repair ≢ ""
repair_is_named e = let f : false ≡ true = (eq_iff repair "").1 e in absurd (cc)

locked_state-LockReach : LockReach 2000000000 locked_state
locked_state-LockReach =
    later (later (later start (begins repair 0 repair_is_named refl)) (looks repair 0 refl))
      (writes repair 0 2000000000 none true refl (ground arith))

LockReach-exclusive_example : repair ≡ repair
unfolding acquire_cluster_lock
LockReach-exclusive_example =
    LockReach-exclusive 2000000000 locked_state repair repair 0 0 locked_state-LockReach refl refl
      (ground arith) (ground arith)

-- Past the duration of the lease, a second operation takes it over.
abbrev taken_over : LockState
taken_over =
    acquire_cluster_lock "prune" 70000000000 70000000000 locked_state.lease true
      (tick 70000000000 locked_state)

-- The first one releases then, and a third one creates the lease anew.
abbrev doubly_held : LockState
doubly_held =
    acquire_cluster_lock "unwedge" 70000000000 70000000000 none true
      (release_lock repair true taken_over)

second_holds : held_since (doubly_held.phases "prune") ≡ some 70000000000
unfolding acquire_cluster_lock release_lock lease_held_by_other
second_holds = refl

third_holds : held_since (doubly_held.phases "unwedge") ≡ some 70000000000
unfolding acquire_cluster_lock release_lock lease_held_by_other
third_holds = refl
