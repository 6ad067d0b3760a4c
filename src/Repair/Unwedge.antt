-- ===== src/Repair/Unwedge.antt =====
-- What the deadlock breaker (src/engine/repair/cnpg_preassess.go) has established when it clears a
-- data directory.
use hasteward.Prelude.{
  String, Bool, true, false, Option, none, some, List, ◌∷◌, ◌≡◌, refl, sym, subst, inl, inr, Elem,
  All, str_eq, eq_iff, Bool-cases, arith,
}
use hasteward.Model.{Recovery, TriageResult}
use hasteward.Escrow.{
  EscrowRef, Result, ok, err, RecoverySet, prepare, capture, PodRead, discover_pvcs,
  used_bytes_by_pvc, IsLawful, AllVerified, pvc_names, Choice,
}
use hasteward.Escrow.Guard.{prepare-IsPrepared, capture-ok}
use hasteward.Escrow.Discovery.{IsCovered, discover_pvcs-IsCovered}
use hasteward.Repair.Proof.{Line}
use hasteward.Repair.Clearing.{IsBound, after_confirm-IsBound}
use hasteward.Repair.Breaker.{
  BreakerHooks, Action, did_capture, did_clear, after_capture, after_prepared, after_discover,
  is_breakable, is_refused, unless_dry, unless_off, break_deadlock, after_triage, pre_assess,
}

is_breakable-blocked : (rec : Recovery) → is_breakable rec ≡ true → rec.blocked ≡ true
unfolding is_breakable
is_breakable-blocked rec h = ground arith

is_refused-unambiguous :
    (t : TriageResult) (rec : Recovery)
    → is_refused t rec ≡ false
    → t.authority_status ≡ "unambiguous"
unfolding is_refused
is_refused-unambiguous t rec h = elim (Bool-cases (str_eq t.authority_status "unambiguous")) [
  | inl e ↦ (eq_iff _ _).0 e
  | inr e ↦ absurd (let h' : true ≡ false = rw e at h in cc)
]

module _ {S : Type 0} (digest : List Line → String) (b : BreakerHooks S) where
  after_capture-IsBound :
      (i : String) (c : Bool) (rec : Recovery) (v : Result (List EscrowRef) × S)
      → Elem (did_clear i c) (after_capture digest b rec v).actions
      → (refs : List EscrowRef) × (later : List Action) × (v.0 ≡ ok refs)
        × ((after_capture digest b rec v).actions ≡ did_capture (ok refs) ∷ later)
        × IsBound digest b i rec refs later
  after_capture-IsBound i c rec (err e, s) (inl q) = absurd (cc)
  after_capture-IsBound i c rec (err e, s) (inr m) = elim m [ ]
  after_capture-IsBound i c rec (ok refs, s) (inl q) = absurd (cc)
  after_capture-IsBound i c rec (ok refs, s) (inr m) =
      (refs, _, refl, refl, after_confirm-IsBound digest b i c rec refs (b.triage s) m)

  -- What stands behind a clear of `i`, from the escrow of `set` on.
  abbrev pub IsCaptured : String → Recovery → List String → List Action → Type 0
  IsCaptured i rec set actions =
      (refs : List EscrowRef) × (later : List Action) × (actions ≡ did_capture (ok refs) ∷ later)
      × AllVerified refs
      × (pvc_names refs ≡ set)
      × IsBound digest b i rec refs later

  unless_dry-IsCaptured :
      (i : String) (c : Bool) (rec : Recovery) (r : RecoverySet S) (dry : Bool) (s : S)
      → IsLawful r.provider
      → Elem (did_clear i c) (unless_dry digest b rec r dry s).actions
      → (dry ≡ false) × IsCaptured i rec r.set (unless_dry digest b rec r dry s).actions
  unless_dry-IsCaptured i c rec r true s law h = elim h [ ]
  unless_dry-IsCaptured i c rec r false s law h =
      let (refs, later, got, order, bound) = after_capture-IsBound i c rec (capture r s) h in
      let (all, kept) = capture-ok r law refs s got in
      (refl, (refs, later, order, all, kept, bound))

  module _ (law : (s : S) (choice : Choice) → IsLawful ((b.backend s).provider_of choice)) where
    after_prepared-IsCaptured :
        (i : String) (c : Bool) (t : TriageResult) (rec : Recovery) (set : List String)
        (x : Result (RecoverySet S)) (s : S)
        → prepare (b.backend s) set (used_bytes_by_pvc t.assessments rec.recovery_set) ≡ x
        → Elem (did_clear i c) (after_prepared digest b rec x s).actions
        → (b.dry_run ≡ false) × IsCaptured i rec set (after_prepared digest b rec x s).actions
    after_prepared-IsCaptured i c t rec set (err e) s q h = elim h [ ]
    after_prepared-IsCaptured i c t rec set (ok r) s q h =
        let prepared = prepare-IsPrepared (b.backend s) set _ r q in
        let law' = subst IsLawful (sym prepared.provided) (law s prepared.choice) in
        subst
          (λ l.
            (b.dry_run ≡ false)
            × IsCaptured i rec l (unless_dry digest b rec r b.dry_run s).actions)
          prepared.set_kept (unless_dry-IsCaptured i c rec r b.dry_run s law' h)

    -- The clear of `i` was decided on the triage `t`, and its recovery set is captured.
    pub record IsSafeClear (i : String) (t : TriageResult) (read_pod : String → PodRead)
        (actions : List Action) : Type 0 where
      pub rec : Recovery
      pub set : List String
      pub recovery : t.recovery ≡ some rec
      pub unambiguous : t.authority_status ≡ "unambiguous"
      pub blocked : rec.blocked ≡ true
      pub live : b.dry_run ≡ false
      pub covered : All (IsCovered b.data_pvc_name read_pod set) rec.recovery_set
      pub captured : IsCaptured i rec set actions

    after_discover-IsCaptured :
        (i : String) (c : Bool) (t : TriageResult) (rec : Recovery) (o : Option (List String))
        (s : S)
        → Elem (did_clear i c) (after_discover digest b t rec o s).actions
        → (set : List String) × (o ≡ some set)
          × (b.dry_run ≡ false)
          × IsCaptured i rec set (after_discover digest b t rec o s).actions
    after_discover-IsCaptured i c t rec none s h = elim h [ ]
    after_discover-IsCaptured i c t rec (some set) s h =
        let (live, cap) = after_prepared-IsCaptured i c t rec set _ s refl h in
        (set, refl, live, cap)

    break_deadlock-IsSafeClear :
        (i : String) (c : Bool) (t : TriageResult) (o : Option Recovery) (s : S)
        → t.recovery ≡ o
        → Elem (did_clear i c) (break_deadlock digest b t o s).actions
        → IsSafeClear i t (b.read_pod s) (break_deadlock digest b t o s).actions
    break_deadlock-IsSafeClear i c t none s e h = elim h [ ]
    break_deadlock-IsSafeClear i c t (some rec) s e h = elim (Bool-cases (is_breakable rec)) [
      | inr bad ↦ absurd (let h' : ⊥ = rw bad at h in h')
      | inl good ↦ elim (Bool-cases (is_refused t rec)) [
        | inl bad ↦ absurd (let h' : ⊥ = rw (good, bad) at h in h')
        | inr clear ↦
            let found =
              after_discover-IsCaptured i c t rec
                (discover_pvcs b.data_pvc_name (b.read_pod s) rec.recovery_set) s
                (rw (good, clear) at h) in
            rw (good, clear)
              (record {
                rec = rec;
                set = found.0;
                recovery = e;
                unambiguous = is_refused-unambiguous t rec clear;
                blocked = is_breakable-blocked rec good;
                live = found.2;
                covered =
                    discover_pvcs-IsCovered b.data_pvc_name (b.read_pod s) rec.recovery_set found.0
                      found.1;
                captured = found.3;
              })
      ]
    ]

    after_triage-IsSafeClear :
        (i : String) (c : Bool) (v : Option TriageResult × S)
        → Elem (did_clear i c) (after_triage digest b v).actions
        → (t : TriageResult) × (v.0 ≡ some t)
          × IsSafeClear i t (b.read_pod v.1) (after_triage digest b v).actions
    after_triage-IsSafeClear i c (none, s) h = elim h [ ]
    after_triage-IsSafeClear i c (some t, s) h =
        (t, refl, break_deadlock-IsSafeClear i c t t.recovery s refl h)

    unless_off-IsSafeClear :
        (s : S) (i : String) (c on : Bool)
        → Elem (did_clear i c) (unless_off digest b on s).actions
        → (t : TriageResult) × ((b.triage s).0 ≡ some t)
          × IsSafeClear i t (b.read_pod (b.triage s).1) (unless_off digest b on s).actions
    unless_off-IsSafeClear s i c false h = elim h [ ]
    unless_off-IsSafeClear s i c true h = after_triage-IsSafeClear i c (b.triage s) h

    -- With escrow providers that keep the interface's contract: if the breaker clears a data
    -- directory, then the run is not a dry run, and the triage before had reported a blocked
    -- recovery under an unambiguous authority; the cleared pod is one of its disposables and not its
    -- authority; and before the clear the breaker had captured and verified one escrow for each
    -- volume of a set that covers every pod of the recovery set, and then stored the proof that
    -- refers to these escrows.
    pub pre_assess-IsSafeClear :
        (s : S) (i : String) (c : Bool)
        → Elem (did_clear i c) (pre_assess digest b s).actions
        → (t : TriageResult) × ((b.triage s).0 ≡ some t)
          × IsSafeClear i t (b.read_pod (b.triage s).1) (pre_assess digest b s).actions
    unfolding pre_assess
    pre_assess-IsSafeClear s i c h = unless_off-IsSafeClear s i c b.unwedge h
