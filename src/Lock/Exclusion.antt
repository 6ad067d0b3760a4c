-- ===== src/Lock/Exclusion.antt =====
-- When two operations that hold the lock are one (src/engine/cnpgjob/lock.go).
use hasteward.Prelude.{ℕ, ◌+◌, ◌*◌, ◌≤◌, String, some, ◌≡◌, inl, inr, arith}
use hasteward.Lock.Lease.{begun, looked, LockState, lease_duration, second}
use hasteward.Lock.Steps.{
  held_since, LockStep, ticks, begins, looks, writes, rereads, renews, releases, LockReach, start,
  later,
}
use hasteward.Lock.Consistent.{IsConsistent, frame, enter-IsConsistent, IsSeenBy-now, later-Holds}
use hasteward.Lock.Preserving.{
  IsFine-at, held_since-Holds, holders-same, acquire-IsConsistent, renew_look-IsConsistent,
  renew_lease-IsConsistent, release_lock-IsConsistent,
}

LockStep-IsConsistent :
    (skew : ℕ) (v w : LockState) → LockStep skew v w → IsConsistent skew v → IsConsistent skew w
LockStep-IsConsistent skew v w (ticks n) k = (
  k.0,
  λ j.
      frame v.lease v.lease v.next_version v.next_version (v.clock + skew) (v.clock + n + skew) j
        (v.phases j) (λ t m h. later-Holds skew v.lease v.clock n j t h) (λ l s. s) (k.1 j),
)
LockStep-IsConsistent skew v w (begins i now named e) k =
    enter-IsConsistent skew v i (begun now) k named
LockStep-IsConsistent skew v w (looks i now e) k =
    enter-IsConsistent skew v i (looked now v.lease) k
      (IsFine-at skew v k i (begun now) e, IsSeenBy-now v.lease v.next_version k.0)
LockStep-IsConsistent skew v w (writes i now reading existing answered e ahead) k =
    acquire-IsConsistent skew v k i now reading existing answered e ahead
LockStep-IsConsistent skew v w (rereads i since e) k = renew_look-IsConsistent skew v k i since e
LockStep-IsConsistent skew v w (renews i since now arrives existing e) k =
    renew_lease-IsConsistent skew v k i since now arrives existing e
LockStep-IsConsistent skew v w (releases i since gone e fresh) k =
    release_lock-IsConsistent skew v k i since gone e fresh

LockReach-IsConsistent : (skew : ℕ) (w : LockState) → LockReach skew w → IsConsistent skew w
LockReach-IsConsistent skew w start = (tt, λ j. tt)
LockReach-IsConsistent skew w (later {v} r s) =
    LockStep-IsConsistent skew v w s (LockReach-IsConsistent skew v r)

-- Two operations that hold the lock as far as they know, each within the duration of the lease since
-- its own last write of it by the fastest clock, are one. The hypotheses: the state is reached by steps of
-- the operations in any order, with writes whose answers may be lost, renewals that may be, and clocks that
-- are ahead by the skew at most, in which a release comes before the lease of the operation may be seen
-- expired.
pub LockReach-exclusive :
    (skew : ℕ) (w : LockState) (i j : String) (s t : ℕ)
    → LockReach skew w
    → held_since (w.phases i) ≡ some s
    → held_since (w.phases j) ≡ some t
    → w.clock + skew ≤ s + lease_duration * second
    → w.clock + skew ≤ t + lease_duration * second
    → j ≡ i
LockReach-exclusive skew w i j s t r p q a b =
    let k = LockReach-IsConsistent skew w r in
    elim (held_since-Holds w.lease w.next_version (w.clock + skew) i (w.phases i) s (k.1 i) p) [
      | inr old ↦ absurd (omega arith)
      | inl at' ↦
          elim (held_since-Holds w.lease w.next_version (w.clock + skew) j (w.phases j) t (k.1 j)
            q) [ inr old ↦ absurd (omega arith) | inl own ↦ holders-same w.lease i j s t at' own ]
    ]
