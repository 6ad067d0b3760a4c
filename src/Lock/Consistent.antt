-- ===== src/Lock/Consistent.antt =====
-- When the lock is consistent, and what a write does to that (src/engine/cnpgjob/lock.go).
use hasteward.Prelude.{
  ℕ, suc, ◌+◌, ◌*◌, ◌<◌, ltb, String, Bool, true, false, ◌||◌, Option, none, some, if◌then◌else◌,
  ◌≡◌, ◌≢◌, refl, sym, subst, ◌∙◌, ◌⊎◌, inl, inr, Bool-cases, arith, str_eq, eq_iff,
}
use hasteward.Lock.Lease.{
  Lease, LockPhase, idle, begun, looked, holding, renewing, LockState, lease_duration, second,
  new_lease, lease_held_by_other, put, enter, write_lease,
}

-- The lease names the holder and the time of its last write.
abbrev pub IsHolder : Option Lease → String → ℕ → Type 0
IsHolder none j t = ⊥
IsHolder (some l) j t = (l.holder ≡ j) × (l.renew_time ≡ some t)

abbrev pub Holds : Option Lease → ℕ → String → ℕ → Type 0
Holds lease clock j t = IsHolder lease j t ⊎ (t + lease_duration * second < clock)

-- A lease that was read is older than the next version, and is the current one if it has its version.
abbrev pub IsCurrent : Option Lease → Lease → Type 0
IsCurrent none l = Unit
IsCurrent (some m) l = (m ≡ l) ⊎ (m.version ≢ l.version)

abbrev pub IsSeen : Option Lease → ℕ → Lease → Type 0
IsSeen lease next l = (l.version < next) × IsCurrent lease l

abbrev pub IsSeenBy : Option Lease → ℕ → Option Lease → Type 0
IsSeenBy lease next none = Unit
IsSeenBy lease next (some l) = IsSeen lease next l

abbrev pub IsFine : Option Lease → ℕ → ℕ → String → LockPhase → Type 0
IsFine lease next clock j idle = Unit
IsFine lease next clock j (begun now) = j ≢ ""
IsFine lease next clock j (looked now existing) = (j ≢ "") × IsSeenBy lease next existing
IsFine lease next clock j (holding since) = (j ≢ "") × Holds lease clock j since
IsFine lease next clock j (renewing since existing) =
    (j ≢ "") × (Holds lease clock j since × (IsSeen lease next existing × (existing.holder ≡ j)))

abbrev pub IsTermed : Option Lease → ℕ → Type 0
IsTermed none next = Unit
IsTermed (some l) next = (l.duration ≡ some lease_duration) × (l.version < next)

-- With the time that the fastest clock may read.
abbrev pub IsConsistent : ℕ → LockState → Type 0
IsConsistent skew w =
    IsTermed w.lease w.next_version
    × ((j : String) → IsFine w.lease w.next_version (w.clock + skew) j (w.phases j))

-- Nothing is lost for an operation that another one's step leaves where it is.
pub frame :
    (L M : Option Lease) (next more clock time : ℕ) (j : String) (p : LockPhase)
    → ((t : ℕ) → j ≢ "" → Holds L clock j t → Holds M time j t)
    → ((l : Lease) → IsSeen L next l → IsSeen M more l)
    → IsFine L next clock j p
    → IsFine M more time j p
frame L M next more clock time j idle h s k = k
frame L M next more clock time j (begun now) h s k = k
frame L M next more clock time j (looked now none) h s k = k
frame L M next more clock time j (looked now (some l)) h s k = (k.0, s l k.1)
frame L M next more clock time j (holding t) h s k = (k.0, h t k.0 k.1)
frame L M next more clock time j (renewing t l) h s k =
    (k.0, (h t k.0 k.1.0, (s l k.1.1.0, k.1.1.1)))

pub put-each :
    (P : String → LockPhase → Type 0) (i : String) (p : LockPhase) (f : String → LockPhase)
    → P i p
    → ((j : String) → j ≢ i → P j (f j))
    → (j : String) → P j (put i p f j)
put-each P i p f own others j = elim (Bool-cases (str_eq j i)) [
  | inl e ↦ rw e (subst (λ k. P k p) (sym ((eq_iff j i).0 e)) own)
  | inr e ↦ rw e (others j (λ same. absurd (ground (arith, (eq_iff j i).1 same))))
]

-- A phase of one operation changes, and nothing else.
pub enter-IsConsistent :
    (skew : ℕ) (w : LockState) (i : String) (p : LockPhase)
    → IsConsistent skew w
    → IsFine w.lease w.next_version (w.clock + skew) i p
    → IsConsistent skew (enter i p w)
enter-IsConsistent skew w i p k own =
    (k.0, put-each (IsFine w.lease w.next_version (w.clock + skew)) i p w.phases own (λ j d. k.1 j))

-- A read of the current lease.
pub IsSeenBy-now : (L : Option Lease) (next : ℕ) → IsTermed L next → IsSeenBy L next L
IsSeenBy-now none next k = tt
IsSeenBy-now (some l) next k = (k.1, inl refl)

pub later-Holds :
    (skew : ℕ) (L : Option Lease) (clock n : ℕ) (j : String) (t : ℕ)
    → Holds L (clock + skew) j t
    → Holds L (clock + n + skew) j t
later-Holds skew L clock n j t (inl h) = inl h
later-Holds skew L clock n j t (inr h) = inr (omega arith)

-- A write gives the lease a version that none has seen.
pub IsSeen-write :
    (L : Option Lease) (next : ℕ) (l m : Lease)
    → m.version ≡ next
    → IsSeen L next l
    → IsSeen (some m) (suc next) l
IsSeen-write L next l m e k = (omega (arith, k.0), inr (λ same. omega (arith, k.0, e, same)))

pub IsSeen-none : (L : Option Lease) (next : ℕ) (l : Lease) → IsSeen L next l → IsSeen none next l
IsSeen-none L next l k = (k.0, tt)

-- A lease that is free for another operation has expired.
pub free-expired :
    (now : ℕ) (i : String) (l : Lease) (j : String) (t : ℕ)
    → lease_held_by_other now i l ≡ ""
    → l.duration ≡ some lease_duration
    → l.holder ≡ j
    → l.renew_time ≡ some t
    → j ≢ ""
    → j ≢ i
    → t + lease_duration * second < now
unfolding lease_held_by_other
free-expired now i l j t free d h r named other =
    elim (Bool-cases (str_eq l.holder "" || str_eq l.holder i)) [
      | inl e ↦ elim (Bool-cases (str_eq l.holder "")) [
        | inl q ↦ absurd (named (sym h ∙ (eq_iff l.holder "").0 q))
        | inr q ↦ absurd (other (sym h ∙ (eq_iff l.holder i).0 (rw q at e)))
      ]
      | inr e ↦ elim (Bool-cases (ltb (t + lease_duration * second) now)) [
        | inl q ↦ ground arith
        | inr q ↦ absurd (named (sym h ∙ (rw (e, r, d, q) at free)))
      ]
    ]

-- A write by one operation while no other can hold the lease.
pub write_lease-IsConsistent :
    (skew : ℕ) (w : LockState) (i : String) (now : ℕ) (answered : Bool)
    → IsConsistent skew w
    → i ≢ ""
    → ((j : String) (t : ℕ)
        → j ≢ ""
        → j ≢ i
        → IsHolder w.lease j t
        → t + lease_duration * second < w.clock + skew)
    → IsConsistent skew (write_lease i now answered w)
write_lease-IsConsistent skew w i now answered k named free = (
  (refl, omega arith),
  put-each (IsFine (some (new_lease i now w.next_version)) (suc w.next_version) (w.clock + skew)) i
      (if answered then holding now else idle) w.phases (own answered)
      (λ j d.
        frame w.lease (some (new_lease i now w.next_version)) w.next_version (suc w.next_version)
          (w.clock + skew) (w.clock + skew) j (w.phases j) (λ t n h. inr (gone j t n d h))
          (λ l s. IsSeen-write w.lease w.next_version l (new_lease i now w.next_version) refl s)
          (k.1 j)),
)
  where
    own :
        (b : Bool)
        → IsFine
            (some (new_lease i now w.next_version))
            (suc w.next_version)
            (w.clock + skew)
            i
            (if b then holding now else idle)
    own true = (named, inl (refl, refl))
    own false = tt

    gone :
        (j : String) (t : ℕ)
        → j ≢ ""
        → j ≢ i
        → Holds w.lease (w.clock + skew) j t
        → t + lease_duration * second < w.clock + skew
    gone j t n d (inl h) = free j t n d h
    gone j t n d (inr h) = h
