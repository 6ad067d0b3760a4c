-- ===== src/Deadlock/Trimming.antt =====
-- What the trim of the WAL rests on (`deadlockRecoverOnPVC` of src/engine/prunewal/deadlock.go).
use hasteward.Prelude.{
  List, ◌&&◌, ◌==◌, ap, ◌∙◌, ℕ, codes, Bool, true, false, not, Option, none, some, [], ◌∷◌, ◌++◌,
  if◌then◌else◌, ◌≡◌, refl, sym, ◌⊎◌, inl, inr, subst, any, Bool-cases, arith,
}
use hasteward.Triage.{is_empty}
use hasteward.PruneWal.{Codes, has_prefix, contains_codes, parse_lsn}
use hasteward.Deadlock.Reading.{
  after_marker, drop_prefix, fields, trim_marks, parse_first, parse_after, ControlState,
  parse_control_state, parse_redo_done,
}
use hasteward.Deadlock.Recover.{
  PvcStep, wal_relocated, wal_replayed, wal_trimmed, wal_restored, Helper, PvcEnd, pvc_failed,
  authority_lsn, panicked, codes_eq, so_far, restore_wal, trim_wal, read_control, after_replay,
  deadlock_recover_on_pvc, has_succeeded, restore_failed, not_shut_down, no_redo_wal,
  replay_panicked,
}

both : (a b : Bool) → (a && b) ≡ true → (a ≡ true) × (b ≡ true)
both true b h = (refl, h)
both false b h = absurd (cc)

abbrev pub is_trim : PvcStep → Bool
is_trim wal_relocated = false
is_trim wal_replayed = false
is_trim (wal_trimmed w) = true
is_trim wal_restored = false

-- The position that a replay proves: what stands in its output after such a marker, or the
-- greatest one of 64 bits if no marker stands there, or one that no position follows.
abbrev pub IsEndOfRedo : Codes → ℕ → Type 0
IsEndOfRedo output lsn =
    ((contains_codes (codes "redo done at ") output ≡ false) × (lsn ≡ 18446744073709551615))
    ⊎ ((before rest : Codes) × ((output ≡ before ++ (codes "redo done at " ++ rest))
          × (((parse_first (fields rest) ≡ none) × (lsn ≡ 18446744073709551615))
              ⊎ ((word : Codes) × ((words : List Codes) × ((fields rest ≡ word ∷ words)
                      × (parse_lsn (trim_marks word) ≡ some lsn)))))))

prefix-drop : (m cs : Codes) → has_prefix m cs ≡ true → cs ≡ m ++ drop_prefix m cs
unfolding has_prefix drop_prefix
prefix-drop [] cs h = refl
prefix-drop (p ∷ ps) [] h = absurd (cc)
prefix-drop (p ∷ ps) (c ∷ cs) h =
    let (same, rest) = both (p == c) (has_prefix ps cs) h in
    let e : c ≡ p = ground arith in rw e (ap (λ z. p ∷ z) (prefix-drop ps cs rest))

-- The marker, which is not empty, stands nowhere, or before what is found.
abbrev IsMarked : Codes → Codes → Option Codes → Type 0
IsMarked m cs none = contains_codes m cs ≡ false
IsMarked m cs (some rest) = (before : Codes) × (cs ≡ before ++ (m ++ rest))

after_marker-IsMarked : (m cs : Codes) → is_empty m ≡ false → IsMarked m cs (after_marker m cs)
unfolding after_marker contains_codes
after_marker-IsMarked m [] e = e
after_marker-IsMarked m (c ∷ cs) e = elim (Bool-cases (has_prefix m (c ∷ cs))) [
  | inl t ↦ rw t ([], prefix-drop m (c ∷ cs) t)
  | inr f ↦ rw f (go (after_marker m cs) (after_marker-IsMarked m cs e) f)
]
  where
    go :
        (o : Option Codes) → IsMarked m cs o → has_prefix m (c ∷ cs) ≡ false → IsMarked m (c ∷ cs) o
    go none k f = rw (f, k) refl
    go (some rest) (before, q) f = (c ∷ before, ap (λ z. c ∷ z) q)

parse_redo_done-IsEndOfRedo :
    (output : Codes) → IsEndOfRedo output (authority_lsn (parse_redo_done output))
unfolding parse_redo_done
parse_redo_done-IsEndOfRedo output =
    go (after_marker (codes "redo done at ") output)
      (after_marker-IsMarked (codes "redo done at ") output refl)
  where
    first :
        (before rest : Codes) (ws : List Codes) (o : Option ℕ)
        → output ≡ before ++ (codes "redo done at " ++ rest)
        → fields rest ≡ ws
        → parse_first ws ≡ o
        → IsEndOfRedo output (authority_lsn o)
    first before rest ws none q f k = inr (before, rest, (q, inl (ap parse_first f ∙ k, refl)))
    first before rest [] (some lsn) q f k = absurd (cc)
    first before rest (w ∷ ws) (some lsn) q f k = inr (before, rest, (q, inr (w, (ws, (f, k)))))

    go :
        (o : Option Codes)
        → IsMarked (codes "redo done at ") output o
        → IsEndOfRedo output (authority_lsn (parse_after o))
    go none k = inl (k, refl)
    go (some rest) (before, q) =
        first before rest (fields rest) (parse_first (fields rest)) q refl refl

module _ (h : Helper) where
  -- The replay that came before, and what the control file said after it.
  abbrev pub IsReplayed : ControlState → ℕ → Type 0
  IsReplayed cs lsn =
      (output : Codes) × ((h.replay ≡ some output)
        × ((panicked output ≡ false)
            × (IsEndOfRedo output lsn
                × ((control : Codes) × ((h.control_data ≡ some control)
                      × ((cs ≡ parse_control_state control)
                          × ((codes_eq cs.state (codes "shut down") ≡ true)
                              × (is_empty cs.redo_wal ≡ false))))))))

  -- No trim and no success, or a trim that comes of a replay, up to the segment that the control
  -- file names after it.
  abbrev pub IsTrimmed : PvcEnd → Type 0
  IsTrimmed e =
      ((any is_trim e.steps ≡ false) × (has_succeeded e.reached ≡ false))
      ⊎ ((cs : ControlState) × ((lsn : ℕ) × (IsReplayed cs lsn
              × (((e.steps ≡ so_far ++ wal_trimmed cs.redo_wal ∷ [])
                    × (has_succeeded e.reached ≡ false))
                  ⊎ ((e.steps ≡ so_far ++ wal_trimmed cs.redo_wal ∷ wal_restored ∷ [])
                      × ((has_succeeded e.reached ≡ false)
                          ⊎ ((h.archive_cleanup ≡ true)
                              × ((h.move_back ≡ true)
                                  × ((e.at_timeline ≡ cs.timeline) × (e.at_lsn ≡ lsn))))))))))

  restore_wal-IsTrimmed :
      (cs : ControlState) (lsn : ℕ) (ok : Bool)
      → h.archive_cleanup ≡ ok
      → IsReplayed cs lsn
      → IsTrimmed (restore_wal h cs lsn ok)
  restore_wal-IsTrimmed cs lsn false c r = inr (cs, (lsn, (r, inl (refl, refl))))
  restore_wal-IsTrimmed cs lsn true c r = go h.move_back refl
    where
      go :
          (b : Bool)
          → h.move_back ≡ b
          → IsTrimmed (
              if b
              then record {
                reached = none;
                at_timeline = cs.timeline;
                at_lsn = lsn;
                steps = so_far ++ wal_trimmed cs.redo_wal ∷ wal_restored ∷ [];
              }
              else pvc_failed restore_failed
                  (so_far ++ wal_trimmed cs.redo_wal ∷ wal_restored ∷ []))
      go true e = inr (cs, (lsn, (r, inr (refl, inr (c, (e, (refl, refl)))))))
      go false e = inr (cs, (lsn, (r, inr (refl, inl refl))))

  trim_wal-IsTrimmed :
      (output control : Codes)
      → h.replay ≡ some output
      → panicked output ≡ false
      → h.control_data ≡ some control
      → IsTrimmed
          (trim_wal h (parse_control_state control) (authority_lsn (parse_redo_done output)))
  trim_wal-IsTrimmed output control e p q =
      let cs = parse_control_state control in
      go (codes_eq cs.state (codes "shut down")) (is_empty cs.redo_wal) refl refl
    where
      go :
          (shut empty : Bool)
          → codes_eq (parse_control_state control).state (codes "shut down") ≡ shut
          → is_empty (parse_control_state control).redo_wal ≡ empty
          → IsTrimmed (
              if not shut
              then pvc_failed not_shut_down so_far
              else if empty
              then pvc_failed no_redo_wal so_far
              else restore_wal h
                  (parse_control_state control)
                  (authority_lsn (parse_redo_done output))
                  h.archive_cleanup)
      go false empty s t = inl (refl, refl)
      go true true s t = inl (refl, refl)
      go true false s t =
          restore_wal-IsTrimmed (parse_control_state control)
            (authority_lsn (parse_redo_done output)) h.archive_cleanup refl
            (output, (e, (p, (parse_redo_done-IsEndOfRedo output, (control, (q, (refl, (s, t))))))))

  read_control-IsTrimmed :
      (output : Codes) (o : Option Codes)
      → h.replay ≡ some output
      → panicked output ≡ false
      → h.control_data ≡ o
      → IsTrimmed (read_control h o (authority_lsn (parse_redo_done output)))
  read_control-IsTrimmed output none e p q = inl (refl, refl)
  read_control-IsTrimmed output (some control) e p q = trim_wal-IsTrimmed output control e p q

  after_replay-IsTrimmed : (o : Option Codes) → h.replay ≡ o → IsTrimmed (after_replay h o)
  after_replay-IsTrimmed none e = inl (refl, refl)
  after_replay-IsTrimmed (some output) e = go (panicked output) refl
    where
      go :
          (b : Bool)
          → panicked output ≡ b
          → IsTrimmed (
              if b
              then pvc_failed replay_panicked so_far
              else read_control h h.control_data (authority_lsn (parse_redo_done output)))
      go true p = inl (refl, refl)
      go false p = read_control-IsTrimmed output h.control_data e p refl

  -- WAL is trimmed only after a replay that printed neither PANIC nor FATAL, in a directory whose
  -- control file then says that it was shut down, and up to the segment that this file names. The
  -- recovery succeeds only after such a trim, with the WAL moved back. Its timeline is that of the control
  -- file; its position is one that follows a "redo done at" of the output as its first word, or the
  -- greatest one of 64 bits if the output has none, or has one that no position follows.
  pub deadlock_recover_on_pvc-IsTrimmed : IsTrimmed (deadlock_recover_on_pvc h)
  unfolding deadlock_recover_on_pvc
  deadlock_recover_on_pvc-IsTrimmed = elim (Bool-cases h.relocate) [
    | inl e ↦ rw e (after_replay-IsTrimmed h.replay refl)
    | inr e ↦ rw e (inl (refl, refl))
  ]

  -- The position that a success reports.
  abbrev pub IsRecovered : Type 0
  IsRecovered =
      (has_succeeded (deadlock_recover_on_pvc h).reached ≡ true)
      × ((cs : ControlState) × (IsReplayed cs (deadlock_recover_on_pvc h).at_lsn
            × ((deadlock_recover_on_pvc h).at_timeline ≡ cs.timeline)))

  pub success-IsRecovered : has_succeeded (deadlock_recover_on_pvc h).reached ≡ true → IsRecovered
  success-IsRecovered s = elim deadlock_recover_on_pvc-IsTrimmed [
    | inl (none_cut, f) ↦ absurd (ground arith)
    | inr (cs, (lsn, (r, inl (e, f)))) ↦ absurd (ground arith)
    | inr (cs, (lsn, (r, inr (e, inl f)))) ↦ absurd (ground arith)
    | inr (cs, (lsn, (r, inr (e, inr (cut, (moved, (t, l))))))) ↦
        (s, (cs, (subst (IsReplayed cs) (sym l) r, t)))
  ]
