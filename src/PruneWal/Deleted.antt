-- ===== src/PruneWal/Deleted.antt =====
-- Which WAL a prune deletes (src/engine/prunewal/cnpg.go).
use hasteward.Prelude.{
  ℕ, codes_ltb, String, Bool, true, false, ◌||◌, not, Option, none, some, ◌≡◌, refl, ◌⊎◌, inl, inr,
  Elem, Elem-select, Elem-append, select, List, [], if◌then◌else◌,
}
use hasteward.Model.{InstanceAssessment, TriageResult}
use hasteward.PruneWal.Lsn.{Codes}
use hasteward.PruneWal.Gates.{Cleared, ready_replicas_of, prune_gate, assert_replicas_caught_up}
use hasteward.PruneWal.Segments.{
  read_checkpoint_boundary, base_of, listed_paths, older_than, Pruning, is_bookkeeping, sweep_after,
  delete_wal_older_than, Answers, if_caught_up, prune_from, prune_wal_on_pvc, prune_cleared,
  prune_wal,
}
use hasteward.PruneWal.Kept.{
  HaveReplayed, assert_replicas_caught_up-passes, IsRelievable, IsCleared, prune_gate-IsCleared,
}

-- The replicas of the primary have what they need, or the instance may be relieved.
abbrev pub IsSpared :
    Answers
    → TriageResult
    → InstanceAssessment
    → (primary target : String) → (force : Bool) → Codes
    → Type 0
IsSpared e r a primary target force redo_lsn =
    (a.is_ready ≡ false)
    × (((primary ≡ target)
          × ((force ≡ true)
              ⊎ HaveReplayed e.replay_of (ready_replicas_of target r.assessments) redo_lsn))
        ⊎ IsRelievable r a target force)

-- The path was listed, and its name sorts before that of the segment.
abbrev pub IsOlder : Answers → Codes → Codes → Type 0
IsOlder e redo_wal path =
    (codes_ltb (base_of path) redo_wal ≡ true)
    × ((output : Codes) × ((e.listing ≡ some output) × Elem path (listed_paths output)))

-- The path is that of a file of stale bookkeeping in the directory.
abbrev pub IsBookkeeping : Answers → Codes → Type 0
IsBookkeeping e path = Elem path e.directory × (is_bookkeeping path ≡ true)

swept :
    (e : Answers) (path : Codes) (ok : Bool)
    → Elem path (if ok then select is_bookkeeping e.directory else [])
    → IsBookkeeping e path
swept e path true m = Elem-select is_bookkeeping path e.directory m
swept e path false m = elim m [ ]

sweep_after-removed :
    (e : Answers) (path : Codes) (ok : Bool) (doomed : List Codes)
    → Elem path (sweep_after ok doomed e.directory e.sweep_ok).removed
    → Elem path doomed ⊎ IsBookkeeping e path
sweep_after-removed e path false doomed m = inl m
sweep_after-removed e path true doomed m =
    elim (Elem-append path doomed (if e.sweep_ok then select is_bookkeeping e.directory else [])
      m) [ inl at' ↦ inl at' | inr rest ↦ inr (swept e path e.sweep_ok rest) ]

abbrev pub IsDeletable : Answers → Codes → Codes → Type 0
IsDeletable e redo_wal path = IsOlder e redo_wal path ⊎ IsBookkeeping e path

delete_wal_older_than-IsDeletable :
    (e : Answers) (redo_wal path : Codes) (listing : Option Codes)
    → e.listing ≡ listing
    → Elem path (delete_wal_older_than redo_wal listing e.rm_ok e.directory e.sweep_ok).removed
    → IsDeletable e redo_wal path
unfolding older_than
delete_wal_older_than-IsDeletable e redo_wal path none l m = elim m [ ]
delete_wal_older_than-IsDeletable e redo_wal path (some output) l m =
    elim (sweep_after-removed e path _ (older_than redo_wal output) m) [
      | inl at' ↦
          let (listed, older) = Elem-select _ path (listed_paths output) at' in
          inl (older, (output, (l, listed)))
      | inr rest ↦ inr rest
    ]

if_caught_up-removed :
    (ok : Bool) (rest : Pruning) (path : Codes)
    → Elem path (if_caught_up ok rest).removed
    → (ok ≡ true) × Elem path rest.removed
if_caught_up-removed true rest path m = (refl, m)
if_caught_up-removed false rest path m = elim m [ ]

spared :
    (e : Answers) (r : TriageResult) (a : InstanceAssessment) (primary target : String)
    → (force : Bool) (c : Cleared) (redo_lsn : Codes) → IsCleared r a primary target force c
    → (not c.verify_replicas
        || assert_replicas_caught_up e.replay_of force c.ready_replicas redo_lsn)
      ≡ true
    → IsSpared e r a primary target force redo_lsn
spared e r a primary target force c redo_lsn (down, inr (skipped, relievable)) h =
    (down, inr relievable)
spared e r a primary target force c redo_lsn (down, inl (verified, (same, ready))) h =
    let h' = rw (verified, ready) at h in
    (down, inl (same, assert_replicas_caught_up-passes e.replay_of force _ redo_lsn h'))

abbrev pub IsPrunable :
    Answers
    → TriageResult
    → InstanceAssessment
    → (primary target : String) → (force : Bool) → Codes
    → Type 0
IsPrunable e r a primary target force path =
    (redo_wal : Codes) × ((redo_lsn : Codes) × ((read_checkpoint_boundary e.controldata
          ≡ some (redo_wal, redo_lsn))
        × (IsDeletable e redo_wal path × IsSpared e r a primary target force redo_lsn)))

prune_from-IsPrunable :
    (e : Answers) (r : TriageResult) (a : InstanceAssessment) (primary target : String)
    → (force : Bool) (c : Cleared) (path : Codes) (boundary : Option (Codes × Codes))
    → IsCleared r a primary target force c
    → read_checkpoint_boundary e.controldata ≡ boundary
    → Elem path (prune_from e c force boundary).removed
    → IsPrunable e r a primary target force path
prune_from-IsPrunable e r a primary target force c path none cleared b m = elim m [ ]
prune_from-IsPrunable e r a primary target force c path (some (redo_wal, redo_lsn)) cleared b m =
    let (passed, at') = if_caught_up-removed _ _ path m in
    (
      redo_wal,
      (
        redo_lsn,
        (
          b,
          (
            delete_wal_older_than-IsDeletable e redo_wal path e.listing refl at',
            spared e r a primary target force c redo_lsn cleared passed,
          ),
        ),
      ),
    )

-- If a prune deletes a file, then it is no dry run. Either the file was listed, and its name sorts
-- before that of the segment of the last checkpoint that the control data of the instance itself name;
-- or it is a file of the directory whose name ends in .partial or .backup, of any age. The instance is
-- not ready. And it is the primary, and forced or with some ready replica and all of
-- them past that checkpoint, or else it is the authority of the triage, or a survivor that is forced
-- under divergence.
pub prune_wal-IsPrunable :
    (e : Answers) (r : TriageResult) (ready_count : ℕ) (a : InstanceAssessment)
    → (primary target : String) (dry_run force : Bool) (path : Codes)
    → Elem path (prune_wal e r ready_count a primary target dry_run force).removed
    → (dry_run ≡ false) × IsPrunable e r a primary target force path
unfolding prune_wal prune_wal_on_pvc
prune_wal-IsPrunable e r ready_count a primary target dry_run force path m =
    go (prune_gate r ready_count a primary target force false) dry_run refl m
  where
    go :
        (o : Option Cleared) (dry : Bool)
        → prune_gate r ready_count a primary target force false ≡ o
        → Elem path (prune_cleared e dry force o).removed
        → (dry ≡ false) × IsPrunable e r a primary target force path
    go none dry g m = elim m [ ]
    go (some c) true g m = elim m [ ]
    go (some c) false g m = (
      refl,
      prune_from-IsPrunable e r a primary target force c path
          (read_checkpoint_boundary e.controldata)
          (prune_gate-IsCleared r ready_count a primary target force false c g) refl m,
    )
