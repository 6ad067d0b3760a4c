-- ===== src/Lock/Steps.antt =====
-- The steps of operations that share the lock of src/engine/cnpgjob/lock.go, in any order.
use hasteward.Prelude.{ℕ, ◌+◌, ◌*◌, ◌≤◌, String, Bool, Option, none, some, ◌≡◌, ◌≢◌}
use hasteward.Lock.Lease.{
  Lease, LockPhase, idle, begun, looked, holding, renewing, LockState, lease_duration, second,
  enter, acquire_cluster_lock, renew_look, renew_lease, release_lock,
}

-- When the operation last wrote the lease, if it holds the lock as far as it knows.
abbrev pub held_since : LockPhase → Option ℕ
held_since idle = none
held_since (begun now) = none
held_since (looked now existing) = none
held_since (holding since) = some since
held_since (renewing since existing) = some since

abbrev pub tick : ℕ → LockState → LockState
tick n w = record w { clock = w.clock + n }

-- No clock that tests a lease is ahead by more than the skew; the time that a host writes is any. An
-- operation that releases the lock does so before its lease may be seen expired: the code does not check
-- it.
pub data LockStep : ℕ → LockState → LockState → Type 0 where
  ticks : {skew : ℕ} {w : LockState} → (n : ℕ) → LockStep skew w (tick n w)
  begins :
      {skew : ℕ} {w : LockState}
      → (i : String) (now : ℕ) → i ≢ ""
      → w.phases i ≡ idle
      → LockStep skew w (enter i (begun now) w)
  looks :
      {skew : ℕ} {w : LockState}
      → (i : String) (now : ℕ) → w.phases i ≡ begun now
      → LockStep skew w (enter i (looked now w.lease) w)
  writes :
      {skew : ℕ} {w : LockState}
      → (i : String) (now reading : ℕ) (existing : Option Lease) (answered : Bool)
      → w.phases i ≡ looked now existing
      → reading ≤ w.clock + skew
      → LockStep skew w (acquire_cluster_lock i now reading existing answered w)
  rereads :
      {skew : ℕ} {w : LockState}
      → (i : String) (since : ℕ) → w.phases i ≡ holding since
      → LockStep skew w (renew_look i since w)
  renews :
      {skew : ℕ} {w : LockState}
      → (i : String) (since now : ℕ) (arrives : Bool) (existing : Lease)
      → w.phases i ≡ renewing since existing
      → LockStep skew w (renew_lease i since now arrives existing w)
  releases :
      {skew : ℕ} {w : LockState}
      → (i : String) (since : ℕ) (gone : Bool) → held_since (w.phases i) ≡ some since
      → w.clock + skew ≤ since + lease_duration * second
      → LockStep skew w (release_lock i gone w)

abbrev pub unlocked : LockState
unlocked = record { lease = none; next_version = 0; clock = 0; phases = λ i. idle }

pub data LockReach : ℕ → LockState → Type 0 where
  start : {skew : ℕ} → LockReach skew unlocked
  later : {skew : ℕ} {v w : LockState} → LockReach skew v → LockStep skew v w → LockReach skew w
