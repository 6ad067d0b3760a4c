-- ===== src/Repair/Clearing.antt =====
-- The clears of the deadlock breaker (src/engine/repair/cnpg_preassess.go) and the proof that it
-- stored before them.
use hasteward.Prelude.{
  String, Bool, true, false, Option, none, some, List, [], ◌∷◌, ◌≡◌, refl, sym, subst, ◌≢◌, ◌⊎◌,
  inl, inr, Elem, any, str_eq, eq_iff, Bool-cases,
}
use hasteward.Model.{Recovery, TriageResult}
use hasteward.Escrow.{EscrowRef}
use hasteward.Repair.Proof.{RecoveryProof, Line, valid, authorizes_clear}
use hasteward.Repair.Breaker.{
  BreakerHooks, Action, did_persist, did_clear, Broke, breaker_proof, after_reclone, reclone_each,
  after_heal_config, after_wait, after_clear, clear_each, after_persist, after_confirm,
}

any-Elem : (i : String) (ds : List String) → any (λ d. str_eq d i) ds ≡ true → Elem i ds
any-Elem i [] h = absurd (cc)
any-Elem i (d ∷ ds) h = elim (Bool-cases (str_eq d i)) [
  | inl e ↦ inl (sym ((eq_iff d i).0 e))
  | inr e ↦ inr (any-Elem i ds (rw e at h))
]

-- The execution-time guard lets through only a named pod that is not the authority and that is listed
-- as disposable.
pub authorizes_clear-IsTarget :
    (p : RecoveryProof) (i : String)
    → authorizes_clear p i ≡ true
    → (i ≢ "") × (i ≢ p.authority) × Elem i p.disposable
unfolding authorizes_clear
authorizes_clear-IsTarget p i h = elim (Bool-cases (str_eq i "")) [
  | inl e ↦ absurd (let h' : false ≡ true = rw e at h in cc)
  | inr e ↦ elim (Bool-cases (str_eq i p.authority)) [
    | inl f ↦ absurd (let h' : false ≡ true = rw (e, f) at h in cc)
    | inr f ↦ (
      (λ q. let g = (eq_iff i "").1 q in absurd (cc)),
      (λ q. let g = (eq_iff i p.authority).1 q in absurd (cc)),
      any-Elem i p.disposable (rw (e, f) at h),
    )
  ]
]

module _ {S : Type 0} (digest : List Line → String) (b : BreakerHooks S) where
  no_clear_after_reclone :
      (i j : String) (c : Bool) (v : Bool × S) (rest : S → Broke S)
      → ((s : S) → Elem (did_clear i c) (rest s).actions → ⊥)
      → Elem (did_clear i c) (after_reclone digest b j v rest).actions
      → ⊥
  no_clear_after_reclone i j c (true, s) rest never (inl e) = absurd (cc)
  no_clear_after_reclone i j c (true, s) rest never (inr m) = never s m
  no_clear_after_reclone i j c (false, s) rest never (inl e) = absurd (cc)
  no_clear_after_reclone i j c (false, s) rest never (inr m) = elim m [ ]

  no_clear_in_reclone :
      (i : String) (c : Bool) (is : List String) (s : S)
      → Elem (did_clear i c) (reclone_each digest b is s).actions
      → ⊥
  unfolding reclone_each
  no_clear_in_reclone i c [] s h = elim h [ ]
  no_clear_in_reclone i c (j ∷ is) s h =
      no_clear_after_reclone i j c (b.heal_instance j s) (reclone_each digest b is)
        (no_clear_in_reclone i c is) h

  no_clear_in_wait :
      (i : String) (c : Bool) (rec : Recovery) (v : Bool × S)
      → Elem (did_clear i c) (after_wait digest b rec v).actions
      → ⊥
  no_clear_in_wait i c rec (false, s) h = elim h [ ]
  no_clear_in_wait i c rec (true, s) h = go (b.heal_config s) h
    where
      go : (v : Bool × S) → Elem (did_clear i c) (after_heal_config digest b rec v).actions → ⊥
      go (false, s') h' = elim h' [ ]
      go (true, s') h' = no_clear_in_reclone i c rec.disposable s' h'

  after_clear-Elem :
      (i j : String) (c : Bool) (v : Bool × S) (rest : S → Broke S)
      → Elem (did_clear i c) (after_clear digest b j v rest).actions
      → (i ≡ j) ⊎ ((s : S) × Elem (did_clear i c) (rest s).actions)
  after_clear-Elem i j c (true, s) rest (inl e) = inl (cc)
  after_clear-Elem i j c (true, s) rest (inr m) = inr (s, m)
  after_clear-Elem i j c (false, s) rest (inl e) = inl (cc)
  after_clear-Elem i j c (false, s) rest (inr m) = elim m [ ]

  clear_each-authorized :
      (i : String) (c : Bool) (rec : Recovery) (proof : RecoveryProof) (is : List String) (s : S)
      → Elem (did_clear i c) (clear_each digest b rec proof is s).actions
      → authorizes_clear proof i ≡ true
  unfolding clear_each
  clear_each-authorized i c rec proof [] s h =
      absurd (no_clear_in_wait i c rec (b.wait_unfrozen rec.authority s) h)
  clear_each-authorized i c rec proof (j ∷ is) s h = elim (Bool-cases (authorizes_clear proof j)) [
    | inr bad ↦ absurd (let h' : ⊥ = rw bad at h in h')
    | inl good ↦
        let h' : Elem (did_clear i c)
            (after_clear digest b j (b.clear_datadir j s)
              (clear_each digest b rec proof is)).actions =
          rw good at h in
        elim (after_clear-Elem i j c (b.clear_datadir j s) _ h') [
          | inl e ↦ subst (λ x. authorizes_clear proof x ≡ true) (sym e) good
          | inr (s', m) ↦ clear_each-authorized i c rec proof is s' m
        ]
  ]

  -- The calls that a clear stands behind, from the persisted proof on.
  after_persist-authorized :
      (i : String) (c : Bool) (confirm : TriageResult) (rec : Recovery) (proof : RecoveryProof)
      (v : Bool × S)
      → Elem (did_clear i c) (after_persist digest b confirm rec proof v).actions
      → (authorizes_clear proof i ≡ true)
        × ((rest : List Action) × ((after_persist digest b confirm rec proof v).actions
              ≡ did_persist proof true ∷ rest))
  after_persist-authorized i c confirm rec proof (false, s) (inl e) = absurd (cc)
  after_persist-authorized i c confirm rec proof (false, s) (inr m) = elim m [ ]
  after_persist-authorized i c confirm rec proof (true, s) (inl e) = absurd (cc)
  after_persist-authorized i c confirm rec proof (true, s) (inr m) =
      elim (Bool-cases (b.breaker_config confirm s)) [
        | inl good ↦
            (clear_each-authorized i c rec proof rec.disposable s (rw good at m), (_, refl))
        | inr bad ↦ absurd (let m' : ⊥ = rw bad at m in m')
      ]

  -- The proof that was persisted, and what it says of the pod that is cleared.
  abbrev pub IsBound : String → Recovery → List EscrowRef → List Action → Type 0
  IsBound i rec refs actions =
      (i ≢ rec.authority)
      × Elem i rec.disposable
      × ((proof : RecoveryProof) × (proof.escrow_refs ≡ refs)
          × ((rest : List Action) × (actions ≡ did_persist proof true ∷ rest)))

  pub after_confirm-IsBound :
      (i : String) (c : Bool) (rec : Recovery) (refs : List EscrowRef) (v : Option TriageResult × S)
      → Elem (did_clear i c) (after_confirm digest b rec refs v).actions
      → IsBound i rec refs (after_confirm digest b rec refs v).actions
  after_confirm-IsBound i c rec refs (none, s) h = elim h [ ]
  after_confirm-IsBound i c rec refs (some confirm, s) h =
      let proof = breaker_proof digest confirm rec refs in
      elim (Bool-cases (valid digest proof (some confirm))) [
        | inr bad ↦ absurd (let h' : ⊥ = rw bad at h in h')
        | inl good ↦
            let (guard, (rest, e)) =
              after_persist-authorized i c confirm rec proof (b.persist proof s) (rw good at h) in
            let (named, spared, target) = authorizes_clear-IsTarget proof i guard in
            rw good (spared, target, (proof, refl, (rest, e)))
      ]
