-- ===== src/Triage/Recovering.antt =====
-- What the deadlock breaker may rely on in the recovery that a triage reports.
use hasteward.Prelude.{
  String, ◌≡◌, refl, sym, ap, subst, ◌∙◌, ◌≢◌, ◌⊎◌, inl, inr, Bool, true, false, not, ◌&&◌, ◌||◌,
  Option, none, some, List, [], ◌∷◌, Elem, arith, str_eq, eq_iff, if◌then◌else◌,
}
use hasteward.Model.{disposable, InstanceAssessment, DataComparison, Recovery}
use hasteward.Triage.Verdict.{
  classify_instance, disposable_pods, disk_full_disposable, recovery_of, derive_recovery,
}
use hasteward.Triage.Response.{Elem-disposable_pods}

-- An instance is disposable only if its data was read while healing is safe, it is neither the primary
-- nor the authority, and it is on an older timeline or stranded.
pub classify_instance-disposable :
    (is_primary is_authority has_data safe_to_heal behind_tl same_tl stranded : Bool)
    → classify_instance is_primary is_authority has_data safe_to_heal behind_tl same_tl stranded
      ≡ disposable
    → (is_primary ≡ false)
      × (is_authority ≡ false)
      × (has_data ≡ true)
      × (safe_to_heal ≡ true)
      × ((behind_tl ≡ true) ⊎ (stranded ≡ true))
unfolding classify_instance
classify_instance-disposable p au false s b t st h = absurd (cc)
classify_instance-disposable p au true false b t st h = absurd (cc)
classify_instance-disposable true au true true b t st h = absurd (cc)
classify_instance-disposable false true true true b t st h = absurd (cc)
classify_instance-disposable false false true true true t st h = (refl, refl, refl, refl, inl refl)
classify_instance-disposable false false true true false t true h =
    (refl, refl, refl, refl, inr refl)
classify_instance-disposable false false true true false true false h = absurd (cc)
classify_instance-disposable false false true true false false false h = absurd (cc)

-- What a recovery that is reported as blocked says.
pub record IsBlockedBy (l : List InstanceAssessment) (c : DataComparison) (primary : String)
    (rec : Recovery) : Type 0 where
  pub safe : c.safe_to_heal ≡ true
  pub named : primary ≢ ""
  pub authority : rec.authority ≡ primary
  pub reason : rec.reason ≡ "disk_full_disposable_replica"
  pub some_target : rec.disposable ≢ []
  pub targets :
      (pod : String)
      → Elem pod rec.disposable
      → (a : InstanceAssessment) × Elem a l × (a.pod ≡ pod) × (a.classification ≡ disposable)
  pub recovery_set : rec.recovery_set ≡ primary ∷ rec.disposable

some-same : {x y : Recovery} → some x ≡ some y → x ≡ y
some-same {x} e = ap (λ (o : Option Recovery). elim o [ none ↦ x | some a ↦ a ]) e

blocked_parts :
    (frozen full running : Bool) → (frozen && full && not running) ≡ true → running ≡ false
blocked_parts frozen full running h = ground arith

module _ (mentions : String → String → Bool) (to_lower : String → String) where
  recovery_of-fields :
      (primary : String) (frozen full running : Bool) (pods : List String) (rec : Recovery)
      → recovery_of mentions to_lower primary frozen full running pods ≡ some rec
      → rec.blocked ≡ true
      → (running ≡ false)
        × (rec.authority ≡ primary)
        × (rec.reason ≡ "disk_full_disposable_replica")
        × (rec.disposable ≡ pods)
        × (pods ≢ [])
        × (rec.recovery_set ≡ primary ∷ pods)
  recovery_of-fields primary frozen full running [] rec h blocked = absurd (cc)
  recovery_of-fields primary true true false (d ∷ ds) rec h blocked =
      let same = some-same (sym h) in
      (
        refl,
        ap (λ (x : Recovery). x.authority) same,
        ap (λ (x : Recovery). x.reason) same,
        ap (λ (x : Recovery). x.disposable) same,
        (λ e. absurd (cc)),
        ap (λ (x : Recovery). x.recovery_set) same,
      )
  recovery_of-fields primary true true true (d ∷ ds) rec h blocked =
      absurd (let e = ap (λ (x : Recovery). x.blocked) (some-same h) in cc)
  recovery_of-fields primary true false running (d ∷ ds) rec h blocked =
      absurd (let e = ap (λ (x : Recovery). x.blocked) (some-same h) in cc)
  recovery_of-fields primary false full running (d ∷ ds) rec h blocked =
      absurd (let e = ap (λ (x : Recovery). x.blocked) (some-same h) in cc)

  -- If the recovery is blocked, then healing is safe, the primary has a name and is not running, it is
  -- the authority, there are disposables, each of them the pod of an assessment that is classified
  -- as disposable, and the recovery set is the primary with the disposables.
  pub derive_recovery-IsBlockedBy :
      (l : List InstanceAssessment) (c : DataComparison) (primary phase : String) (running : Bool)
      (rec : Recovery)
      → derive_recovery mentions to_lower l c primary phase running ≡ some rec
      → rec.blocked ≡ true
      → (running ≡ false) × IsBlockedBy l c primary rec
  unfolding derive_recovery
  derive_recovery-IsBlockedBy l c primary phase running rec h blocked =
      go c.safe_to_heal (str_eq primary "") refl refl h
    where
      rest : Option Recovery
      rest =
          recovery_of mentions to_lower primary (mentions (to_lower phase) "not enough disk space")
            (disk_full_disposable mentions to_lower l) running (disposable_pods l)

      go :
          (safe unnamed : Bool)
          → c.safe_to_heal ≡ safe
          → str_eq primary "" ≡ unnamed
          → (if not safe || unnamed
              then some (record {
                blocked = false;
                reason = "ambiguous_authority";
                authority = "";
                disposable = [];
                recovery_set = [];
              })
              else rest)
            ≡ some rec
          → (running ≡ false) × IsBlockedBy l c primary rec
      go false unnamed e f q =
          absurd (let e' = ap (λ (x : Recovery). x.blocked) (some-same q) in cc)
      go true true e f q = absurd (let e' = ap (λ (x : Recovery). x.blocked) (some-same q) in cc)
      go true false e f q =
          let (stopped, is, why, which, nonempty, set) =
            recovery_of-fields primary (mentions (to_lower phase) "not enough disk space")
              (disk_full_disposable mentions to_lower l) running (disposable_pods l) rec q
              blocked in
          (
            stopped,
            record {
              safe = e;
              named = λ same. let g = (eq_iff primary "").1 same in absurd (cc);
              authority = is;
              reason = why;
              some_target = λ none_left. nonempty (sym which ∙ none_left);
              targets = λ pod m. Elem-disposable_pods l pod (subst (Elem pod) which m);
              recovery_set = set ∙ ap (λ ds. primary ∷ ds) (sym which);
            },
          )
