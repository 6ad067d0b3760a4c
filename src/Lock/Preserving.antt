-- ===== src/Lock/Preserving.antt =====
-- Every step of an operation keeps the lock consistent (src/engine/cnpgjob/lock.go).
use hasteward.Prelude.{
  ℕ, suc, ◌+◌, ◌*◌, ◌≤◌, String, Bool, true, false, Option, none, some, ◌&&◌, if◌then◌else◌, ◌≡◌,
  ◌≢◌, refl, sym, ap, subst, ◌∙◌, inl, inr, Bool-cases, arith, str_eq, eq_iff,
}
use hasteward.Lock.Lease.{
  Lease, LockPhase, idle, begun, looked, holding, renewing, LockState, lease_duration, second,
  lease_held_by_other, put, enter, write_lease, is_version, create_lease, take_over,
  acquire_cluster_lock, own_lease, renew_look, renew_lease, release_lock,
}
use hasteward.Lock.Steps.{held_since}
use hasteward.Lock.Consistent.{
  IsHolder, Holds, IsSeen, IsSeenBy, IsFine, IsTermed, IsConsistent, frame, put-each,
  enter-IsConsistent, IsSeenBy-now, IsSeen-write, IsSeen-none, free-expired,
  write_lease-IsConsistent,
}

some-inj : (s t : ℕ) → some s ≡ some t → s ≡ t
some-inj s t e = ap (λ (o : Option ℕ). elim o [ none ↦ s | some n ↦ n ]) e

pub held_since-Holds :
    (L : Option Lease) (next clock : ℕ) (j : String) (p : LockPhase) (t : ℕ)
    → IsFine L next clock j p
    → held_since p ≡ some t
    → Holds L clock j t
held_since-Holds L next clock j idle t k e = absurd (cc)
held_since-Holds L next clock j (begun now) t k e = absurd (cc)
held_since-Holds L next clock j (looked now existing) t k e = absurd (cc)
held_since-Holds L next clock j (holding s) t k e = subst (Holds L clock j) (some-inj s t e) k.1
held_since-Holds L next clock j (renewing s l) t k e =
    subst (Holds L clock j) (some-inj s t e) k.1.0

-- Two operations named by one lease are one.
pub holders-same :
    (L : Option Lease) (i j : String) (s t : ℕ) → IsHolder L i s → IsHolder L j t → j ≡ i
holders-same none i j s t h k = elim h [ ]
holders-same (some l) i j s t h k = sym k.0 ∙ h.0

-- The current lease, if it has the version of one that was read.
version-current :
    (L : Option Lease) (next : ℕ) (l : Lease)
    → is_version l.version L ≡ true
    → IsSeen L next l
    → L ≡ some l
version-current none next l v k = absurd (cc)
version-current (some m) next l v (k, inl same) = ap some same
version-current (some m) next l v (k, inr other) = absurd (other (ground arith))

and_right : (a : Bool) {b : Bool} → (a && b) ≡ true → b ≡ true
and_right true e = e
and_right false e = absurd (cc)

module _ (skew : ℕ) (w : LockState) (k : IsConsistent skew w) (i : String) where
  pub IsFine-at :
      (p : LockPhase) → w.phases i ≡ p → IsFine w.lease w.next_version (w.clock + skew) i p
  IsFine-at p e = subst (IsFine w.lease w.next_version (w.clock + skew) i) e (k.1 i)

  create_lease-IsConsistent :
      (now : ℕ) (answered : Bool) (L : Option Lease)
      → i ≢ ""
      → w.lease ≡ L
      → IsConsistent skew (create_lease i now answered L w)
  create_lease-IsConsistent now answered none named e =
      write_lease-IsConsistent skew w i now answered k named
        (λ j t n d h. elim (subst (λ (L : Option Lease). IsHolder L j t) e h) [ ])
  create_lease-IsConsistent now answered (some l) named e = enter-IsConsistent skew w i idle k tt

  take_over-IsConsistent :
      (now reading : ℕ) (answered : Bool) (l : Lease)
      → reading ≤ w.clock + skew
      → i ≢ ""
      → IsSeen w.lease w.next_version l
      → IsConsistent skew (take_over i now reading answered l w)
  take_over-IsConsistent now reading answered l ahead named seen =
      go (str_eq (lease_held_by_other reading i l) "") (is_version l.version w.lease) refl refl
    where
      go :
          (free same : Bool)
          → str_eq (lease_held_by_other reading i l) "" ≡ free
          → is_version l.version w.lease ≡ same
          → IsConsistent skew (
              if free
              then if same then write_lease i now answered w else enter i idle w
              else enter i idle w)
      go false same f v = enter-IsConsistent skew w i idle k tt
      go true false f v = enter-IsConsistent skew w i idle k tt
      go true true f v =
          let e : w.lease ≡ some l = version-current w.lease w.next_version l v seen in
          let termed : IsTermed (some l) w.next_version =
            subst (λ (L : Option Lease). IsTermed L w.next_version) e k.0 in
          write_lease-IsConsistent skew w i now answered k named (λ j t n d h.
            let at' : IsHolder (some l) j t = subst (λ (L : Option Lease). IsHolder L j t) e h in
            let past =
              free-expired reading i l j t ((eq_iff (lease_held_by_other reading i l) "").0 f)
                termed.0 at'.0 at'.1 n d in
            omega (arith, past, ahead))

  pub acquire-IsConsistent :
      (now reading : ℕ) (existing : Option Lease) (answered : Bool)
      → w.phases i ≡ looked now existing
      → reading ≤ w.clock + skew
      → IsConsistent skew (acquire_cluster_lock i now reading existing answered w)
  unfolding acquire_cluster_lock
  acquire-IsConsistent now reading none answered e ahead =
      create_lease-IsConsistent now answered w.lease (IsFine-at (looked now none) e).0 refl
  acquire-IsConsistent now reading (some l) answered e ahead =
      let fine = IsFine-at (looked now (some l)) e in
      take_over-IsConsistent now reading answered l ahead fine.0 fine.1

  own_lease-IsFine :
      (since : ℕ) (L : Option Lease)
      → w.lease ≡ L
      → (i ≢ "")
      → Holds w.lease (w.clock + skew) i since
      → IsFine w.lease w.next_version (w.clock + skew) i (own_lease i since L)
  own_lease-IsFine since none e named h = (named, h)
  own_lease-IsFine since (some l) e named h = elim (Bool-cases (str_eq l.holder i)) [
    | inl q ↦ rw q (
      named,
      (
        h,
        (
          subst (IsSeenBy w.lease w.next_version) e (IsSeenBy-now w.lease w.next_version k.0),
          (eq_iff l.holder i).0 q,
        ),
      ),
    )
    | inr q ↦ rw q (named, h)
  ]

  pub renew_look-IsConsistent :
      (since : ℕ) → w.phases i ≡ holding since → IsConsistent skew (renew_look i since w)
  unfolding renew_look
  renew_look-IsConsistent since e =
      let fine = IsFine-at (holding since) e in
      enter-IsConsistent skew w i (own_lease i since w.lease) k
        (own_lease-IsFine since w.lease refl fine.0 fine.1)

  pub renew_lease-IsConsistent :
      (since now : ℕ) (arrives : Bool) (l : Lease)
      → w.phases i ≡ renewing since l
      → IsConsistent skew (renew_lease i since now arrives l w)
  unfolding renew_lease
  renew_lease-IsConsistent since now arrives l e =
      go (arrives && is_version l.version w.lease) refl (IsFine-at (renewing since l) e)
    where
      go :
          (same : Bool)
          → (arrives && is_version l.version w.lease) ≡ same
          → IsFine w.lease w.next_version (w.clock + skew) i (renewing since l)
          → IsConsistent skew (
              if same
              then record {
                lease = some (record l { renew_time = some now; version = w.next_version });
                next_version = suc w.next_version;
                clock = w.clock;
                phases = put i (holding now) w.phases;
              }
              else enter i (holding since) w)
      go false v fine = enter-IsConsistent skew w i (holding since) k (fine.0, fine.1.0)
      go true v fine =
          let q : w.lease ≡ some l =
            version-current w.lease w.next_version l (and_right arrives v) fine.1.1.0 in
          let termed : IsTermed (some l) w.next_version =
            subst (λ (L : Option Lease). IsTermed L w.next_version) q k.0 in
          let m : Lease = record l { renew_time = some now; version = w.next_version } in
          (
            (termed.0, omega arith),
            put-each (IsFine (some m) (suc w.next_version) (w.clock + skew)) i (holding now)
                w.phases (fine.0, inl (fine.1.1.1, refl))
                (λ j d.
                  frame w.lease (some m) w.next_version (suc w.next_version) (w.clock + skew)
                    (w.clock + skew) j (w.phases j)
                    (λ t n h. elim h [
                      | inl at' ↦
                          let own : IsHolder (some l) j t =
                            subst (λ (L : Option Lease). IsHolder L j t) q at' in
                          absurd (d (sym own.0 ∙ fine.1.1.1))
                      | inr old ↦ inr old
                    ])
                    (λ x s. IsSeen-write w.lease w.next_version x m refl s) (k.1 j)),
          )

  pub release_lock-IsConsistent :
      (since : ℕ) (gone : Bool)
      → held_since (w.phases i) ≡ some since
      → w.clock + skew ≤ since + lease_duration * second
      → IsConsistent skew (release_lock i gone w)
  unfolding release_lock
  release_lock-IsConsistent since false e fresh = enter-IsConsistent skew w i idle k tt
  release_lock-IsConsistent since true e fresh = (
    tt,
    put-each (IsFine none w.next_version (w.clock + skew)) i idle w.phases tt (λ j d.
        frame w.lease none w.next_version w.next_version (w.clock + skew) (w.clock + skew) j
          (w.phases j)
          (λ t n h. inr (elim h [ inl at' ↦ absurd (others j t d at') | inr old ↦ old ]))
          (λ x s. IsSeen-none w.lease w.next_version x s) (k.1 j)),
  )
    where
      others : (j : String) (t : ℕ) → j ≢ i → IsHolder w.lease j t → ⊥
      others j t d at' =
          elim (held_since-Holds w.lease w.next_version (w.clock + skew) i (w.phases i) since
            (k.1 i) e) [
              | inl own ↦ d (holders-same w.lease i j since t own at')
              | inr old ↦ absurd (omega arith)
            ]
