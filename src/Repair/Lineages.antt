-- ===== src/Repair/Lineages.antt =====
-- On a split-brain every instance has a copy before a heal (src/engine/repair/escrow.go).
use hasteward.Prelude.{
  String, Bool, true, false, ◌||◌, Option, none, some, List, [], ◌∷◌, ◌≡◌, refl, sym, ap, subst,
  ◌≢◌, ◌⊎◌, inl, inr, Elem, All, All-Elem, if◌then◌else◌, str_eq, eq_iff, arith,
}
use hasteward.Model.{InstanceAssessment, TriageResult}
use hasteward.Escrow.{
  Config, EscrowRef, Result, ok, err, gate, discover_pvcs, used_bytes_by_pvc, IsLawful, AllVerified,
  pvc_names, Choice,
}
use hasteward.Escrow.Guard.{gate-AllVerified}
use hasteward.Escrow.Discovery.{IsCovered, discover_pvcs-IsCovered}
use hasteward.Repair.Capture.{
  EscrowHooks, EscrowError, not_configured, Escrowed, Dumps, assert_escrow_repo, is_up,
  escrow_error, after_dump, dump_one, dump_diverged, after_gate_of, after_volumes,
  escrow_undumpable, diverged_backups, after_backup, pre_repair_backup, is_unconfigured,
  unless_quiet, run_escrow,
}

neither : (a c : Bool) → (a || c) ≡ false → a ≡ false
neither a c h = ground arith

module _ {S : Type 0} (cfg : Config) (b : EscrowHooks S) where
  IsReached : String → Dumps S → Type 0
  IsReached pod d = Elem pod d.dumped ⊎ Elem pod d.undumpable

  after_dump-first :
      (pod : String) (v : Bool × S) (rest : S → Dumps S)
      → IsReached pod (after_dump cfg b pod v rest)
  unfolding IsReached
  after_dump-first pod (true, s) rest = inl (inl refl)
  after_dump-first pod (false, s) rest = inr (inl refl)

  after_dump-rest :
      (x pod : String) (v : Bool × S) (rest : S → Dumps S)
      → ((s : S) → IsReached x (rest s))
      → IsReached x (after_dump cfg b pod v rest)
  unfolding IsReached
  after_dump-rest x pod (true, s) rest h = elim (h s) [ inl m ↦ inl (inr m) | inr m ↦ inr m ]
  after_dump-rest x pod (false, s) rest h = elim (h s) [ inl m ↦ inl m | inr m ↦ inr (inr m) ]

  dump_one-first :
      (pod : String) (up : Bool) (s : S) (rest : S → Dumps S)
      → IsReached pod (dump_one cfg b pod up s rest)
  unfolding IsReached
  dump_one-first pod false s rest = inr (inl refl)
  dump_one-first pod true s rest = after_dump-first pod (b.backup_dump "diverged" pod s) rest

  dump_one-rest :
      (x pod : String) (up : Bool) (s : S) (rest : S → Dumps S)
      → ((s : S) → IsReached x (rest s))
      → IsReached x (dump_one cfg b pod up s rest)
  unfolding IsReached
  dump_one-rest x pod false s rest h = elim (h s) [ inl m ↦ inl m | inr m ↦ inr (inr m) ]
  dump_one-rest x pod true s rest h = after_dump-rest x pod (b.backup_dump "diverged" pod s) rest h

  dump_diverged-IsReached :
      (l : List InstanceAssessment) (a : InstanceAssessment) (s : S)
      → Elem a l
      → IsReached a.pod (dump_diverged cfg b l s)
  unfolding dump_diverged
  dump_diverged-IsReached [] a s m = elim m [ ]
  dump_diverged-IsReached (c ∷ l) a s (inl e) =
      subst
        (λ (x : InstanceAssessment).
          IsReached x.pod (dump_one cfg b c.pod (is_up c) s (dump_diverged cfg b l)))
        (sym e) (dump_one-first c.pod (is_up c) s (dump_diverged cfg b l))
  dump_diverged-IsReached (c ∷ l) a s (inr m) =
      dump_one-rest a.pod c.pod (is_up c) s (dump_diverged cfg b l)
        (λ s'. dump_diverged-IsReached l a s' m)

  -- The volumes of the pod are all among the block-level captures, each of which is verified.
  pub record IsSaved (pod : String) (refs : List EscrowRef) : Type 0 where
    pub at : S
    pub set : List String
    pub covered : IsCovered b.data_pvc_name (b.read_pod at) set pod
    pub verified : AllVerified refs
    pub captured : pvc_names refs ≡ set

  -- A dump of the pod succeeded, or its volumes are captured.
  abbrev pub HasCopy : String → Escrowed S → Type 0
  HasCopy pod e = Elem pod e.dumped ⊎ IsSaved pod e.refs

  -- The escrow was configured, on a repository that was there before.
  abbrev pub IsGrounded : TriageResult → Escrowed S → Type 0
  IsGrounded result e =
      (cfg.backups_path ≢ "")
      × (b.repo_exists ≡ some true)
      × ((a : InstanceAssessment) → Elem a result.assessments → HasCopy a.pod e)

  module _ (law : (s : S) (choice : Choice) → IsLawful ((b.backend s).provider_of choice))
      (on : cfg.no_escrow ≡ false) where
    gate_of-IsSaved :
        (dumped pods set : List String) (result : TriageResult) (s : S)
        (x : Result (List EscrowRef) × S)
        → gate cfg (b.backend s) set (used_bytes_by_pvc result.assessments pods) s ≡ x
        → All (IsCovered b.data_pvc_name (b.read_pod s) set) pods
        → (after_gate_of cfg b dumped x).error ≡ none
        → (pod : String) → Elem pod pods
        → IsSaved pod (after_gate_of cfg b dumped x).refs
    gate_of-IsSaved dumped pods set result s (err e, s') q cov h pod m = absurd (cc)
    gate_of-IsSaved dumped pods set result s (ok refs, s') q cov h pod m =
        let (all, kept, rest) =
          gate-AllVerified cfg (b.backend s) set (used_bytes_by_pvc result.assessments pods) s refs
            (law s) on (ap (λ (v : Result (List EscrowRef) × S). v.0) q) in
        record {
          at = s;
          set = set;
          covered = All-Elem _ pod pods cov m;
          verified = all;
          captured = kept;
        }

    volumes-IsSaved :
        (dumped pods : List String) (result : TriageResult) (s : S) (o : Option (List String))
        → discover_pvcs b.data_pvc_name (b.read_pod s) pods ≡ o
        → (after_volumes cfg b result dumped pods o s).error ≡ none
        → (pod : String) → Elem pod pods
        → IsSaved pod (after_volumes cfg b result dumped pods o s).refs
    volumes-IsSaved dumped pods result s none q h pod m = absurd (cc)
    volumes-IsSaved dumped pods result s (some set) q h pod m =
        gate_of-IsSaved dumped pods set result s _ refl
          (discover_pvcs-IsCovered b.data_pvc_name (b.read_pod s) pods set q) h pod m

    gate_of-dumped :
        (dumped : List String) (x : Result (List EscrowRef) × S)
        → (after_gate_of cfg b dumped x).dumped ≡ dumped
    gate_of-dumped dumped (ok refs, s) = refl
    gate_of-dumped dumped (err e, s) = refl

    volumes-dumped :
        (dumped pods : List String) (result : TriageResult) (s : S) (o : Option (List String))
        → (after_volumes cfg b result dumped pods o s).dumped ≡ dumped
    volumes-dumped dumped pods result s none = refl
    volumes-dumped dumped pods result s (some set) =
        gate_of-dumped dumped
          (gate cfg (b.backend s) set (used_bytes_by_pvc result.assessments pods) s)

    escrow_undumpable-HasCopy :
        (result : TriageResult) (dumped pods : List String) (s : S)
        → (escrow_undumpable cfg b result dumped pods s).error ≡ none
        → (pod : String) → Elem pod dumped ⊎ Elem pod pods
        → HasCopy pod (escrow_undumpable cfg b result dumped pods s)
    unfolding escrow_undumpable
    escrow_undumpable-HasCopy result dumped [] s h pod (inl m) = inl m
    escrow_undumpable-HasCopy result dumped [] s h pod (inr m) = elim m [ ]
    escrow_undumpable-HasCopy result dumped (p ∷ ps) s h pod (inl m) =
        inl (subst (Elem pod) (sym (volumes-dumped dumped (p ∷ ps) result s _)) m)
    escrow_undumpable-HasCopy result dumped (p ∷ ps) s h pod (inr m) =
        inr (volumes-IsSaved dumped (p ∷ ps) result s _ refl h pod m)

    diverged_backups-HasCopy :
        (result : TriageResult) (safe quiet : Bool) (s : S)
        → safe ≡ false
        → quiet ≡ false
        → (diverged_backups cfg b safe quiet result s).error ≡ none
        → (a : InstanceAssessment) → Elem a result.assessments
        → HasCopy a.pod (diverged_backups cfg b safe quiet result s)
    unfolding IsReached
    diverged_backups-HasCopy result true quiet s e f h a m = absurd (cc)
    diverged_backups-HasCopy result false true s e f h a m = absurd (cc)
    diverged_backups-HasCopy result false false s e f h a m =
        let d = dump_diverged cfg b result.assessments s in
        escrow_undumpable-HasCopy result d.dumped d.undumpable d.state h a.pod
          (dump_diverged-IsReached result.assessments a s m)

    after_backup-HasCopy :
        (result : TriageResult) (v : Bool × S)
        → result.data_comparison.safe_to_heal ≡ false
        → (after_backup cfg b result v).error ≡ none
        → (a : InstanceAssessment) → Elem a result.assessments
        → HasCopy a.pod (after_backup cfg b result v)
    after_backup-HasCopy result (true, s) split h a m =
        diverged_backups-HasCopy result result.data_comparison.safe_to_heal cfg.no_escrow s split on
          h a m
    after_backup-HasCopy result (false, s) split h a m = absurd (cc)

    repo-exists : (o : Option Bool) → assert_escrow_repo o ≡ none → o ≡ some true
    unfolding assert_escrow_repo
    repo-exists none h = absurd (cc)
    repo-exists (some true) h = refl
    repo-exists (some false) h = absurd (cc)

    pre_repair_backup-IsGrounded :
        (result : TriageResult) (donor : String) (o : Option EscrowError) (s : S)
        → assert_escrow_repo b.repo_exists ≡ o
        → cfg.backups_path ≢ ""
        → result.data_comparison.safe_to_heal ≡ false
        → (pre_repair_backup cfg b result donor o s).error ≡ none
        → IsGrounded result (pre_repair_backup cfg b result donor o s)
    pre_repair_backup-IsGrounded result donor (some e) s q path split h = absurd (cc)
    pre_repair_backup-IsGrounded result donor none s q path split h =
        (path, repo-exists b.repo_exists q, after_backup-HasCopy result _ split h)

    configured-IsGrounded :
        (result : TriageResult) (donor : String) (s : S) (t : Bool)
        → is_unconfigured cfg b ≡ t
        → result.data_comparison.safe_to_heal ≡ false
        → (if t
            then escrow_error cfg b not_configured [] s
            else pre_repair_backup cfg b result donor (assert_escrow_repo b.repo_exists) s).error
          ≡ none
        → IsGrounded result (
            if t
            then escrow_error cfg b not_configured [] s
            else pre_repair_backup cfg b result donor (assert_escrow_repo b.repo_exists) s)
    configured-IsGrounded result donor s true q split h = absurd (cc)
    configured-IsGrounded result donor s false q split h =
        pre_repair_backup-IsGrounded result donor _ s refl
          (λ e.
            let f = (eq_iff cfg.backups_path "").1 e in
            let g = neither (str_eq cfg.backups_path "") (str_eq cfg.restic_password "") q in
            absurd (cc))
          split h

    unless_quiet-IsGrounded :
        (result : TriageResult) (donor : String) (s : S) (quiet : Bool)
        → quiet ≡ false
        → result.data_comparison.safe_to_heal ≡ false
        → (unless_quiet cfg b quiet result donor s).error ≡ none
        → IsGrounded result (unless_quiet cfg b quiet result donor s)
    unless_quiet-IsGrounded result donor s true q split h = absurd (cc)
    unless_quiet-IsGrounded result donor s false q split h =
        configured-IsGrounded result donor s (is_unconfigured cfg b) refl split h

  -- With escrow providers that keep the interface's contract: if the escrow of a split-brain is not
  -- switched off and returns no error, then a place for backups is configured, its repository was
  -- there before, and of every instance that the triage assessed a diverged dump succeeded, or all
  -- its volumes are captured at the block layer and verified.
  pub run_escrow-IsGrounded :
      (law : (s : S) (choice : Choice) → IsLawful ((b.backend s).provider_of choice))
      (on : cfg.no_escrow ≡ false) (result : TriageResult) (donor : String) (s : S)
      → result.data_comparison.safe_to_heal ≡ false
      → (run_escrow cfg b result donor s).error ≡ none
      → IsGrounded result (run_escrow cfg b result donor s)
  unfolding run_escrow
  run_escrow-IsGrounded law on result donor s split h =
      unless_quiet-IsGrounded law on result donor s cfg.no_escrow on split h
