-- ===== src/Lock/Lease.antt =====
-- `leaseHeldByOther`, `newLease` and the calls of `AcquireClusterLock` and `renewLease` of
-- src/engine/cnpgjob/lock.go. Times are in nanoseconds; each host reads a clock of its own, and `clock` of
-- the state is the time that they stray from. The API server gives each write of the lease a
-- new version, and refuses an update of another version than the current one.
use hasteward.Prelude.{
  ℕ, suc, ◌+◌, ◌*◌, ltb, ◌==◌, String, Bool, false, ◌&&◌, ◌||◌, Option, none, some, if◌then◌else◌,
  str_eq,
}

pub record Lease : Type 0 where
  pub holder : String
  pub renew_time : Option ℕ
  pub duration : Option ℕ
  pub version : ℕ

-- What one operation does about the lock: the time is that of its last own write of the lease.
pub data LockPhase : Type 0 where
  idle : LockPhase
  begun : (now : ℕ) → LockPhase
  looked : (now : ℕ) → (existing : Option Lease) → LockPhase
  holding : (since : ℕ) → LockPhase
  renewing : (since : ℕ) → (existing : Lease) → LockPhase

pub record LockState : Type 0 where
  pub lease : Option Lease
  pub next_version : ℕ
  pub clock : ℕ
  pub phases : String → LockPhase

abbrev pub lease_duration : ℕ
lease_duration = 60

abbrev pub second : ℕ
second = 1000000000

abbrev pub new_lease : String → ℕ → ℕ → Lease
new_lease identity now version = record {
  holder = identity;
  renew_time = some now;
  duration = some lease_duration;
  version = version;
}

abbrev pub held_unless_expired : ℕ → String → Option ℕ → Option ℕ → String
held_unless_expired now holder (some r) (some d) = if ltb (r + d * second) now then "" else holder
held_unless_expired now holder (some r) none = holder
held_unless_expired now holder none d = holder

-- "" if the lease is free or already the own one.
unfoldable pub lease_held_by_other : ℕ → String → Lease → String
lease_held_by_other now identity l =
    if str_eq l.holder "" || str_eq l.holder identity
    then ""
    else held_unless_expired now l.holder l.renew_time l.duration

abbrev pub put : String → LockPhase → (String → LockPhase) → String → LockPhase
put i p f j = if str_eq j i then p else f j

abbrev pub enter : String → LockPhase → LockState → LockState
enter i p w = record w { phases = put i p w.phases }

-- A write that the server accepts; its answer may be lost.
abbrev pub write_lease : String → ℕ → Bool → LockState → LockState
write_lease i now answered w = record {
  lease = some (new_lease i now w.next_version);
  next_version = suc w.next_version;
  clock = w.clock;
  phases = put i (if answered then holding now else idle) w.phases;
}

abbrev pub is_version : ℕ → Option Lease → Bool
is_version v none = false
is_version v (some l) = l.version == v

-- The creation of a lease that was not found.
abbrev pub create_lease : String → ℕ → Bool → Option Lease → LockState → LockState
create_lease i now answered none w = write_lease i now answered w
create_lease i now answered (some l) w = enter i idle w

-- The take-over of the lease that was read: `reading` is the clock of the host at the test.
abbrev pub take_over : String → ℕ → ℕ → Bool → Lease → LockState → LockState
take_over i now reading answered existing w =
    if str_eq (lease_held_by_other reading i existing) ""
    then if is_version existing.version w.lease
      then write_lease i now answered w
      else enter i idle w
    else enter i idle w

-- The rest of `AcquireClusterLock` after its read.
unfoldable pub acquire_cluster_lock : String → ℕ → ℕ → Option Lease → Bool → LockState → LockState
acquire_cluster_lock i now reading none answered w = create_lease i now answered w.lease w
acquire_cluster_lock i now reading (some existing) answered w =
    take_over i now reading answered existing w

abbrev pub own_lease : String → ℕ → Option Lease → LockPhase
own_lease i since none = holding since
own_lease i since (some l) = if str_eq l.holder i then renewing since l else holding since

-- The read of `renewLease`, and its update.
unfoldable pub renew_look : String → ℕ → LockState → LockState
renew_look i since w = enter i (own_lease i since w.lease) w

-- The update may be lost on its way, and its answer is not read: the next renewal comes as if it was not.
unfoldable pub renew_lease : String → ℕ → ℕ → Bool → Lease → LockState → LockState
renew_lease i since now arrives existing w =
    if arrives && is_version existing.version w.lease
    then record {
      lease = some (record existing { renew_time = some now; version = w.next_version });
      next_version = suc w.next_version;
      clock = w.clock;
      phases = put i (holding now) w.phases;
    }
    else enter i (holding since) w

-- The release deletes the lease by its name; a failure leaves it to expire. A renewal under way would
-- be refused after it, for the version.
unfoldable pub release_lock : String → Bool → LockState → LockState
release_lock i gone w =
    if gone
    then record {
      lease = none;
      next_version = w.next_version;
      clock = w.clock;
      phases = put i idle w.phases;
    }
    else enter i idle w
