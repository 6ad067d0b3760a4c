-- ===== src/Deadlock/Releasing.antt =====
-- What becomes of a recovered instance (`deadlockRecover` of src/engine/prunewal/deadlock.go).
use hasteward.Prelude.{
  ℕ, ℤ, pos, negsuc, int_eq, leb, ◌≤◌, ◌&&◌, any, Bool, true, false, Option, none, some, List, [],
  ◌∷◌, ◌≡◌, ◌≢◌, refl, ap, ◌⊎◌, inl, inr, Elem, Bool-cases, arith,
}
use hasteward.Escrow.{EscrowRef}
use hasteward.CnpgJob.{Failure, fence_failed, unfence_failed, Cluster, is_fenced, run, unfence}
use hasteward.CnpgJob.Fencing.{run-fenced, unfence_lem, failed_fence}
use hasteward.CnpgJob.Working.{run-works}
use hasteward.Deadlock.Reading.{
  InstancePos, read_replica_positions, covers_recovered, safe_to_release_recovered_primary,
}
use hasteward.Deadlock.Recover.{
  deadlock_recover_on_pvc, has_succeeded, Rescue, RescueEnd, only_described, not_escrowed,
  image_unknown, scratch_unknown, kept_fenced, release_failed, job_failed, released_to_operator,
  escrow_snapshot, rescue_job, rescue_api, recovered, release, judge, after_job, replay_in_place,
  after_snapshot, escrow_first, unless_dry_run, deadlock_recover,
}
use hasteward.Deadlock.Trimming.{IsRecovered, success-IsRecovered}

int_eq-path : (a b : ℤ) → int_eq a b ≡ true → a ≡ b
int_eq-path (pos a) (pos b) h = ap pos (ground arith)
int_eq-path (pos a) (negsuc b) h = absurd (cc)
int_eq-path (negsuc a) (pos b) h = absurd (cc)
int_eq-path (negsuc a) (negsuc b) h = ap negsuc (ground arith)

covers-parts : (a b : ℤ) (m n : ℕ) → (int_eq a b && leb m n) ≡ true → (a ≡ b) × (m ≤ n)
covers-parts a b m n h = (int_eq-path a b (ground arith), ground arith)

-- A replica at least as far as the recovered instance, on its timeline.
abbrev pub IsCaughtUp : InstancePos → List InstancePos → Type 0
IsCaughtUp at' ps =
    (r : InstancePos) × (Elem r ps × ((r.timeline ≡ at'.timeline) × (at'.lsn ≤ r.lsn)))

any-IsCaughtUp :
    (at' : InstancePos) (ps : List InstancePos)
    → any (covers_recovered at') ps ≡ true
    → IsCaughtUp at' ps
any-IsCaughtUp at' [] h = absurd (cc)
any-IsCaughtUp at' (p ∷ ps) h = elim (Bool-cases (covers_recovered at' p)) [
  | inl e ↦ (p, (inl refl, covers-parts p.timeline at'.timeline at'.lsn p.lsn e))
  | inr e ↦ let (r, (m, rest)) = any-IsCaughtUp at' ps (rw e at h) in (r, (inr m, rest))
]

module _ (d : Rescue) where
  abbrev pub IsEscrowed : Type 0
  IsEscrowed =
      (d.no_escrow ≡ true) ⊎ ((ref : EscrowRef) × (escrow_snapshot d.escrow_gate ≡ some ref))

  -- What lets a recovered instance go.
  abbrev pub IsReleasable : Type 0
  IsReleasable =
      (d.is_primary ≡ true)
      × (IsRecovered d.helper
          × IsCaughtUp (recovered d) (read_replica_positions d.target_pod d.replica_pods))

  abbrev pub IsKept : Cluster → RescueEnd × Cluster → Type 0
  IsKept c (only_described, e) = e ≡ c
  IsKept c (not_escrowed, e) = e ≡ c
  IsKept c (image_unknown, e) = e ≡ c
  IsKept c (scratch_unknown, e) = e ≡ c
  IsKept c (job_failed f, e) =
      IsEscrowed × ((f ≡ fence_failed) ⊎ ((f ≡ unfence_failed) ⊎ (is_fenced d.target_pod e ≡ true)))
  IsKept c (kept_fenced, e) =
      IsEscrowed × (IsRecovered d.helper × (is_fenced d.target_pod e ≡ true))
  IsKept c (release_failed, e) = IsEscrowed × IsReleasable
  IsKept c (released_to_operator p, e) =
      IsEscrowed × (IsReleasable × (is_fenced d.target_pod e ≡ false))

  judge-IsKept :
      (c e : Cluster) (primary safe : Bool)
      → d.is_primary ≡ primary
      → safe_to_release_recovered_primary
          (recovered d)
          (read_replica_positions d.target_pod d.replica_pods)
        ≡ safe
      → IsEscrowed
      → IsRecovered d.helper
      → is_fenced d.target_pod e ≡ true
      → IsKept c (judge d primary safe e)
  unfolding safe_to_release_recovered_primary
  judge-IsKept c e false safe p s esc rec fenced = (esc, (rec, fenced))
  judge-IsKept c e true false p s esc rec fenced = (esc, (rec, fenced))
  judge-IsKept c e true true p s esc rec fenced =
      go (unfence d.release_read d.release_patch d.target_pod e)
        (unfence_lem d.release_read d.release_patch d.target_pod e)
    where
      go :
          (r : Bool × Cluster)
          → (r.0 ≡ true → is_fenced d.target_pod r.1 ≡ false)
          → IsKept c (release d r)
      go (false, x) gone = (
        esc,
        (
          p,
          (
            rec,
            any-IsCaughtUp (recovered d) (read_replica_positions d.target_pod d.replica_pods) s,
          ),
        ),
      )
      go (true, x) gone = (
        esc,
        (
          (
            p,
            (
              rec,
              any-IsCaughtUp (recovered d) (read_replica_positions d.target_pod d.replica_pods) s,
            ),
          ),
          gone refl,
        ),
      )

  after_job-IsKept :
      (c : Cluster) (r : Option Failure × Cluster)
      → IsEscrowed
      → (r.0 ≡ none → is_fenced d.target_pod r.1 ≡ true)
      → ((f : Failure)
          → r.0 ≡ some f
          → f ≢ fence_failed
          → f ≢ unfence_failed
          → is_fenced d.target_pod r.1 ≡ true)
      → (r.0 ≡ none → has_succeeded (deadlock_recover_on_pvc d.helper).reached ≡ true)
      → IsKept c (after_job d r)
  after_job-IsKept c (none, e) esc held kept worked =
      judge-IsKept c e d.is_primary
        (safe_to_release_recovered_primary (recovered d)
          (read_replica_positions d.target_pod d.replica_pods))
        refl refl esc (success-IsRecovered d.helper (worked refl)) (held refl)
  after_job-IsKept c (some f, e) esc held kept worked = (esc, failed_fence f (kept f refl))

  replay_in_place-IsKept :
      (c : Cluster) (image scratch : Bool)
      → IsEscrowed
      → IsKept c (replay_in_place d image scratch c)
  replay_in_place-IsKept c false scratch esc = refl
  replay_in_place-IsKept c true false esc = refl
  replay_in_place-IsKept c true true esc =
      let fences = run-fenced (rescue_job d) (rescue_api d) c in
      after_job-IsKept c (run (rescue_job d) (rescue_api d) c) esc fences.0 fences.1
        (λ e. run-works (rescue_job d) (rescue_api d) c refl e)

  escrow_first-IsKept :
      (c : Cluster) (skip : Bool) → d.no_escrow ≡ skip → IsKept c (escrow_first d skip c)
  escrow_first-IsKept c true e = replay_in_place-IsKept c d.image_known d.scratch_known (inl e)
  escrow_first-IsKept c false e = go (escrow_snapshot d.escrow_gate) refl
    where
      go :
          (o : Option EscrowRef)
          → escrow_snapshot d.escrow_gate ≡ o
          → IsKept c (after_snapshot d o c)
      go none q = refl
      go (some ref) q = replay_in_place-IsKept c d.image_known d.scratch_known (inr (ref, q))

  unless_dry_run-IsKept : (c : Cluster) (dry : Bool) → IsKept c (unless_dry_run d dry c)
  unless_dry_run-IsKept c true = refl
  unless_dry_run-IsKept c false = escrow_first-IsKept c d.no_escrow refl

  -- A recovery that changes anything has escrowed the volume, unless --no-escrow. It releases the
  -- instance to the operator only if it is the primary, its WAL was replayed and trimmed, and a ready
  -- replica is on the timeline that was reached and at least as far; then the instance is not fenced.
  -- Otherwise an instance that was recovered stays fenced, and so does one whose job failed, unless what
  -- failed is the fence itself or its removal. Before the job nothing is changed.
  pub deadlock_recover-IsKept : (c : Cluster) → IsKept c (deadlock_recover d c)
  unfolding deadlock_recover
  deadlock_recover-IsKept c = unless_dry_run-IsKept c d.dry_run
