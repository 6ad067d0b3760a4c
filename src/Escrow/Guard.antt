-- ===== src/Escrow/Guard.antt =====
-- What a caller of the gate may rely on.
use hasteward.Prelude.{
  ℕ, ◌+◌, ◌^◌, ◌≤◌, ◌<◌, ◌≡◌, refl, sym, subst, ◌∙◌, inl, inr, String, Bool, true, false, Option,
  none, some, List, [], ◌∷◌, arith, leb, Bool-cases, ap,
}
use hasteward.Escrow.Defs.{
  Config, EscrowRef, UsedBytes, EscrowProvider, IsLawful, AllVerified, pvc_names,
}
use hasteward.Escrow.Select.{Choice, Selection, selected, select_refused}
use hasteward.Escrow.Gate.{
  reserve_bytes, max_outstanding_escrows, Refusal, Result, ok, err, exceeds, RecoverySet, Backend,
  check_space, check_count, check_selection, prepare, verified_refs, captured, capture,
  after_prepare, gate,
}

exceeds-false :
    (est avail : ℕ)
    → exceeds est avail ≡ false
    → est + reserve_bytes < 2 ^ 63
    → est + reserve_bytes ≤ avail
unfolding exceeds
exceeds-false est avail h small = ground arith

ok-injective : {A : Type 0} {x y : A} → ok x ≡ ok y → x ≡ y
ok-injective {A} {x} e = ap (λ (r : Result A). elim r [ ok a ↦ a | err _ ↦ x ]) e

err-injective : (A : Type 0) {x y : Refusal} → ◌≡◌ {A = Result A} (err x) (err y) → x ≡ y
err-injective A {x} e = ap (λ (r : Result A). elim r [ ok _ ↦ x | err a ↦ a ]) e

module _ {S : Type 0} where
  -- What `Prepare` has established when it returns a recovery set.
  pub record IsPrepared (b : Backend S) (set : List String) (used : UsedBytes) (r : RecoverySet S)
      : Type 0 where
    pub choice : Choice
    pub chosen : b.selection set ≡ selected choice
    pub provided : r.provider ≡ b.provider_of choice
    pub set_kept : r.set ≡ set
    pub count : ℕ
    pub counted : b.outstanding ≡ some count
    pub capped : count < max_outstanding_escrows
    pub space : (b.provider_of choice).available_bytes ≡ some r.available
    pub fits :
        let est = (b.provider_of choice).estimate_capture_bytes set used in
        est + reserve_bytes < 2 ^ 63 → est + reserve_bytes ≤ r.available

  check_space-ok :
      (p : EscrowProvider S) (set : List String) (used : UsedBytes) (o : Option ℕ)
      (r : RecoverySet S)
      → check_space p set used o ≡ ok r
      → (o ≡ some r.available)
        × (r.provider ≡ p)
        × (r.set ≡ set)
        × (exceeds (p.estimate_capture_bytes set used) r.available ≡ false)
  check_space-ok p set used none r h = absurd (cc)
  check_space-ok p set used (some avail) r h =
      elim (Bool-cases (exceeds (p.estimate_capture_bytes set used) avail)) [
        | inl e ↦ absurd (let q : _ ≡ ok r = rw e at h in cc)
        | inr e ↦
            let q : ok (record {
              provider = p;
              set = set;
              estimate = p.estimate_capture_bytes set used;
              available = avail;
            })
                ≡ ok r =
              rw e at h in
            let same = ok-injective q in
            (
              ap (λ (x : RecoverySet S). some x.available) same,
              ap (λ (x : RecoverySet S). x.provider) (sym same),
              ap (λ (x : RecoverySet S). x.set) (sym same),
              subst
                  (λ (x : RecoverySet S).
                    exceeds (p.estimate_capture_bytes set used) x.available ≡ false)
                  same e,
            )
      ]

  pub prepare-IsPrepared :
      (b : Backend S) (set : List String) (used : UsedBytes) (r : RecoverySet S)
      → prepare b set used ≡ ok r
      → IsPrepared b set used r
  unfolding prepare
  prepare-IsPrepared b [] used r h = absurd (cc)
  prepare-IsPrepared b (pvc ∷ pvcs) used r h = go (b.selection (pvc ∷ pvcs)) refl h
    where
      set : List String
      set = pvc ∷ pvcs

      counted :
          (choice : Choice) (o : Option ℕ)
          → b.selection set ≡ selected choice
          → b.outstanding ≡ o
          → check_count (b.provider_of choice) set used o ≡ ok r
          → IsPrepared b set used r
      counted choice none e q h' = absurd (cc)
      counted choice (some n) e q h' = elim (Bool-cases (leb max_outstanding_escrows n)) [
        | inl full ↦ absurd (let w : _ ≡ ok r = rw full at h' in cc)
        | inr free ↦
            let (space, prov, kept, fit) =
              check_space-ok (b.provider_of choice) set used (b.provider_of choice).available_bytes
                r (rw free at h') in
            record {
              choice = choice;
              chosen = e;
              provided = prov;
              set_kept = kept;
              count = n;
              counted = q;
              capped = ground arith;
              space = space;
              fits = exceeds-false _ _ fit;
            }
      ]

      go :
          (x : Selection)
          → b.selection set ≡ x
          → check_selection b x set used ≡ ok r
          → IsPrepared b set used r
      go (selected choice) e h' = counted choice b.outstanding e refl h'
      go (select_refused x) e h' = absurd (cc)

  verified_refs-ok :
      (p : EscrowProvider S) (law : IsLawful p) (refs₀ refs : List EscrowRef) (s : S)
      → (verified_refs (p.verify refs₀ s)).0 ≡ ok refs
      → AllVerified refs × (pvc_names refs ≡ pvc_names refs₀)
  verified_refs-ok p law refs₀ refs s h = go (p.verify refs₀ s) refl h
    where
      go :
          (v : List EscrowRef × Bool × S)
          → p.verify refs₀ s ≡ v
          → (verified_refs v).0 ≡ ok refs
          → AllVerified refs × (pvc_names refs ≡ pvc_names refs₀)
      go (rs, true, s') e h' =
          let same : rs ≡ refs = ok-injective h' in
          let at : (p.verify refs₀ s).0 ≡ refs =
            ap (λ (v : List EscrowRef × Bool × S). v.0) e ∙ same in
          (
            subst AllVerified at
                (law.verifies_each refs₀ s (ap (λ (v : List EscrowRef × Bool × S). v.1) e)),
            ap pvc_names (sym at) ∙ law.keeps_each refs₀ s,
          )
      go (rs, false, s') e h' = absurd (cc)

  pub capture-ok :
      (r : RecoverySet S) (law : IsLawful r.provider) (refs : List EscrowRef) (s : S)
      → (capture r s).0 ≡ ok refs
      → AllVerified refs × (pvc_names refs ≡ r.set)
  unfolding capture
  capture-ok r law refs s h = go (r.provider.capture r.set s) refl h
    where
      go :
          (v : Option (List EscrowRef) × S)
          → r.provider.capture r.set s ≡ v
          → (captured r v).0 ≡ ok refs
          → AllVerified refs × (pvc_names refs ≡ r.set)
      go (none, s') e h' = absurd (cc)
      go (some rs, s') e h' =
          let (all, kept) = verified_refs-ok r.provider law rs refs s' h' in
          let each =
            law.captures_each r.set s rs (ap (λ (v : Option (List EscrowRef) × S). v.0) e) in
          (all, kept ∙ each)

  -- Without `--no-escrow`, and with providers that keep the interface's contract, a gate that returns
  -- no error has captured exactly the PVCs of the set and verified each capture; before that it
  -- found the cluster below the cap on outstanding escrows, and room for the estimate and the
  -- reserve, as long as their sum does not overflow an int64.
  pub gate-AllVerified :
      (cfg : Config) (b : Backend S) (set : List String) (used : UsedBytes) (s : S)
      (refs : List EscrowRef)
      → ((choice : Choice) → IsLawful (b.provider_of choice))
      → cfg.no_escrow ≡ false
      → (gate cfg b set used s).0 ≡ ok refs
      → AllVerified refs × (pvc_names refs ≡ set) × ((r : RecoverySet S) × IsPrepared b set used r)
  unfolding gate
  gate-AllVerified cfg b set used s refs law off h = go (prepare b set used) refl (rw off at h)
    where
      go :
          (x : Result (RecoverySet S))
          → prepare b set used ≡ x
          → (after_prepare x s).0 ≡ ok refs
          → AllVerified refs
            × (pvc_names refs ≡ set)
            × ((r : RecoverySet S) × IsPrepared b set used r)
      go (err e) q h' = absurd (cc)
      go (ok r) q h' =
          let prepared = prepare-IsPrepared b set used r q in
          let (all, kept) =
            capture-ok r (subst IsLawful (sym prepared.provided) (law prepared.choice)) refs s h' in
          (all, kept ∙ prepared.set_kept, (r, prepared))
