-- ===== src/Bootstrap/Choosing.antt =====
-- What the selection of the candidate rests on (`selectCandidate` of src/engine/bootstrap/galera.go).
use hasteward.Prelude.{
  ℤ, int_ltb, find, String, Bool, true, false, ◌&&◌, not, Option, none, some, List, [], ◌∷◌, ◌≡◌,
  refl, sym, ap, subst, ◌∙◌, ◌⊎◌, inl, inr, Elem, All, All-Elem, Bool-cases, str_eq, eq_iff, arith,
}
use hasteward.GaleraTriage.Data.{WsrepRecoverResult}
use hasteward.Bootstrap.Candidate.{
  Recoveries, is_authoritative_recover, LineageGroup, build_lineage_groups, several, kept_candidate,
  may_win, Best, best_recovered, recovered_well, known_seqno, settle, select_among,
  select_candidate, candidate_override_discards_data,
}
use hasteward.Bootstrap.Majority.{IsMajority, build_lineage_groups-IsMajority}
use hasteward.Bootstrap.Winners.{
  HasSource, build_lineage_groups-HasSource, IsWinner, best_recovered-IsWinner, IsFound,
  best_recovered-IsFound,
}

abbrev pub leading_uuid : List LineageGroup → String
leading_uuid [] = ""
leading_uuid (g ∷ gs) = g.uuid

-- Each entry is the one that its pod is found by.
abbrev pub IsMap : Recoveries → Type 0
IsMap m = All (λ e. find e.0 m ≡ some e.1) m

some-injective : {x y : String} → some x ≡ some y → x ≡ y
some-injective {x} e = ap (λ (r : Option String). elim r [ some l ↦ l | none ↦ x ]) e

abbrev is_some : Option String → Bool
is_some none = false
is_some (some x) = true

module _ (original : String) (known : List (String × ℤ)) (m : Recoveries) (force : Bool) where
  -- Why a pod may be the candidate although other nodes recovered.
  abbrev pub IsSoundChoice : List LineageGroup → String → Type 0
  IsSoundChoice gs pod =
      ((gs ≡ []) × (pod ≡ original))
      ⊎ ((r : WsrepRecoverResult) × (Elem (pod, r) m
            × ((is_authoritative_recover r ≡ true)
                × (((force ≡ true)
                      ⊎ ((several gs ≡ false) ⊎ ((r.uuid ≡ leading_uuid gs) × IsMajority m gs)))
                    × ((pod ≡ original)
                        ⊎ ((force ≡ true)
                            ⊎ ((recovered_well (find original m) ≡ true)
                                ⊎ (int_ltb r.seqno (known_seqno (find original known))
                                    ≡ false))))))))

  no_more : (a b : Bool) → (true && not (not a && b && not true)) ≡ true
  no_more true b = refl
  no_more false true = refl
  no_more false false = refl

  no_loss :
      (well behind : Bool)
      → (not well && behind && not force) ≡ false
      → (force ≡ true) ⊎ ((well ≡ true) ⊎ (behind ≡ false))
  no_loss well behind h = elim (Bool-cases force) [
    | inl e ↦ inl e
    | inr e ↦ elim (Bool-cases well) [
      | inl w ↦ inr (inl w)
      | inr w ↦ elim (Bool-cases behind) [ inl b ↦ absurd (ground arith) | inr b ↦ inr (inr b) ]
    ]
  ]

  of_leader :
      (r : WsrepRecoverResult) (g : LineageGroup) (gs : List LineageGroup)
      → IsMajority m gs
      → may_win force g gs r ≡ true
      → (is_authoritative_recover r ≡ true)
        × ((force ≡ true) ⊎ ((several gs ≡ false) ⊎ ((r.uuid ≡ g.uuid) × IsMajority m gs)))
  of_leader r g gs top h = elim (Bool-cases force) [
    | inl e ↦ (ground arith, inl e)
    | inr e ↦ elim (Bool-cases (several gs)) [
      | inl s ↦ elim (Bool-cases (str_eq r.uuid g.uuid)) [
        | inl q ↦ (ground arith, inr (inr ((eq_iff r.uuid g.uuid).0 q, top)))
        | inr q ↦ absurd (ground arith)
      ]
      | inr s ↦ (ground arith, inr (inl s))
    ]
  ]

  -- A winner among the original's own keeps the original.
  kept_candidate-winner :
      (r : WsrepRecoverResult) (g : LineageGroup) (gs : List LineageGroup)
      → find original m ≡ some r
      → may_win force g gs r ≡ true
      → kept_candidate original m force g gs ≡ original
  unfolding kept_candidate
  kept_candidate-winner r g gs f h = rw f (ground arith)

  settle-IsSoundChoice :
      (g : LineageGroup) (gs : List LineageGroup) (b : Best) (pod : String)
      → IsMap m
      → IsMajority m (g ∷ gs)
      → IsFound (may_win force g (g ∷ gs)) b
      → IsWinner (may_win force g (g ∷ gs)) m b
      → settle original known m force (kept_candidate original m force g (g ∷ gs)) b ≡ some pod
      → IsSoundChoice (g ∷ gs) pod
  settle-IsSoundChoice g gs none pod entries top found w h = elim found [ ]
  settle-IsSoundChoice g gs (some (best, r)) pod entries top found w h =
      let sound = of_leader r g (g ∷ gs) top w.1 in
      elim (Bool-cases (str_eq best original)) [
        | inl e ↦
            let same : best ≡ original = (eq_iff best original).0 e in
            let mine : find original m ≡ some r =
              subst (λ p. find p m ≡ some r) same
                (All-Elem (λ z. find z.0 m ≡ some z.1) (best, r) m entries w.0) in
            let kept = kept_candidate-winner r g (g ∷ gs) mine w.1 in
            let pod_is : pod ≡ original = sym (some-injective (ap some (sym kept) ∙ (rw e at h))) in
            inr (
              r,
              (
                subst (λ p. Elem (p, r) m) (same ∙ sym pod_is) w.0,
                (sound.0, (sound.1, inl pod_is)),
              ),
            )
        | inr e ↦
            elim (Bool-cases (
              candidate_override_discards_data (recovered_well (find original m))
                (known_seqno (find original known)) r.seqno
              && not force)) [
                | inl t ↦ absurd (ground (arith, ap is_some (rw (e, t) at h)))
                | inr t ↦
                    let same : best ≡ pod = some-injective (rw (e, t) at h) in
                    inr (
                      r,
                      (
                        subst (λ p. Elem (p, r) m) same w.0,
                        (
                          sound.0,
                          (
                            sound.1,
                            inr (
                                no_loss (recovered_well (find original m))
                                  (int_ltb r.seqno (known_seqno (find original known))) t),
                          ),
                        ),
                      ),
                    )
              ]
      ]

  may_win_own :
      (g : LineageGroup) (gs : List LineageGroup) (r : WsrepRecoverResult)
      → is_authoritative_recover r ≡ true
      → r.uuid ≡ g.uuid
      → may_win force g (g ∷ gs) r ≡ true
  may_win_own g gs r ok same =
      let e : str_eq r.uuid g.uuid ≡ true = (eq_iff r.uuid g.uuid).1 same in
      rw (ok, e) (no_more force (several (g ∷ gs)))

  -- The candidate is the original one if no node recovered a usable position. Otherwise it is a pod
  -- whose own recovery is authoritative, of the first lineage, for which the most nodes
  -- recovered one, when several are
  -- found and nothing is forced; and it is the original one, or forced, or the original one recovered a position too, or
  -- was not known to be further than the pod. The hypotheses: the results have one entry to a pod, and
  -- the selection does not refuse.
  pub select_candidate-IsSoundChoice :
      (pod : String)
      → IsMap m
      → select_candidate original known m force ≡ some pod
      → IsSoundChoice (build_lineage_groups m) pod
  unfolding select_candidate
  select_candidate-IsSoundChoice pod entries h =
      go (build_lineage_groups m) (build_lineage_groups-HasSource m)
        (build_lineage_groups-IsMajority m) h
    where
      go :
          (gs : List LineageGroup)
          → All (HasSource m) gs
          → IsMajority m gs
          → select_among original known m force gs ≡ some pod
          → IsSoundChoice gs pod
      go [] s top e = inl (refl, sym (some-injective e))
      go (g ∷ gs) s top e =
          let (source, (at', (ok, same))) = s.0 in
          settle-IsSoundChoice g gs (best_recovered (may_win force g (g ∷ gs)) m none) pod entries
            top
            (best_recovered-IsFound (may_win force g (g ∷ gs)) m none source at'
              (may_win_own g gs source.1 ok same))
            (best_recovered-IsWinner (may_win force g (g ∷ gs)) m m none (λ x k. k) tt) e
