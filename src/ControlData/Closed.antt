-- ===== src/ControlData/Closed.antt =====
-- What a decision on authority passes over (src/engine/triage/cnpg.go).
use hasteward.Prelude.{
  ℤ, pos, int_ltb, String, Bool, true, false, ◌&&◌, some, List, [], ◌∷◌, ◌≡◌, refl, ◌⊎◌, inl, inr,
  All, Bool-cases, arith, str_eq, find_or,
}
use hasteward.Triage.{is_empty}
use hasteward.Authority.{
  Input, SwitchPoint, Comparator, determine_authority, unread_blockers, is_unread,
}
use hasteward.Authority.Leader.{determine_authority-SafeOver}
use hasteward.PruneWal.{trim_space}
use hasteward.ControlData.Parse.{
  ControlRead, has_position, positioned, unread_input, authority_input, build_authority_inputs,
  parse_timeline_int, parse_timeline_history, history_for_timeline,
}

module _ (pvcs : List (String × String)) where
  -- The position was read, with its fork points; or there is proof that there is no data.
  abbrev pub IsKnown : ControlRead → Type 0
  IsKnown cd =
      let tl = trim_space cd.timeline_text in
      ((has_position tl ≡ true)
        × ((int_ltb (pos 1) (parse_timeline_int tl)
              && is_empty (
                  parse_timeline_history
                    (history_for_timeline cd.history_raw (parse_timeline_int tl))))
            ≡ false))
      ⊎ ((has_position tl ≡ false)
          × ((str_eq cd.pgdata_present "empty" ≡ true)
              ⊎ (str_eq (find_or "" cd.pod pvcs) "MISSING" ≡ true)))

  read_input-known :
      (cd : ControlRead) (primary : String) (timeline : ℤ) (sw : List SwitchPoint) (forks : Bool)
      → is_unread (positioned cd primary timeline sw forks) ≡ false
      → forks ≡ false
  read_input-known cd primary timeline sw true h = absurd (cc)
  read_input-known cd primary timeline sw false h = refl

  unread_input-known :
      (cd : ControlRead) (primary pvc : String)
      → is_unread (unread_input cd primary pvc) ≡ false
      → (str_eq cd.pgdata_present "empty" ≡ true) ⊎ (str_eq pvc "MISSING" ≡ true)
  unread_input-known cd primary pvc h = elim (Bool-cases (str_eq cd.pgdata_present "empty")) [
    | inl e ↦ inl e
    | inr e ↦ elim (Bool-cases (str_eq pvc "MISSING")) [
      | inl m ↦ inr m
      | inr m ↦ absurd (ground (arith, (rw (e, m) at h)))
    ]
  ]

  authority_input-IsKnown :
      (cd : ControlRead) (primary : String)
      → is_unread (authority_input cd primary (find_or "" cd.pod pvcs)) ≡ false
      → IsKnown cd
  authority_input-IsKnown cd primary h =
      elim (Bool-cases (has_position (trim_space cd.timeline_text))) [
        | inl e ↦ inl (
          e,
          read_input-known cd primary (parse_timeline_int (trim_space cd.timeline_text))
              (parse_timeline_history (
                history_for_timeline cd.history_raw
                  (parse_timeline_int (trim_space cd.timeline_text))))
              _ (rw e at h),
        )
        | inr e ↦ inr (e, unread_input-known cd primary (find_or "" cd.pod pvcs) (rw e at h))
      ]

  head_read :
      (i : Input) (is : List Input)
      → unread_blockers (i ∷ is) ≡ []
      → (is_unread i ≡ false) × (unread_blockers is ≡ [])
  unfolding unread_blockers
  head_read i is h = elim (Bool-cases (is_unread i)) [
    | inl e ↦ absurd (ground (arith, (rw e at h)))
    | inr e ↦ (e, (rw e at h))
  ]

  build-IsKnown :
      (cds : List ControlRead) (primary : String)
      → unread_blockers (build_authority_inputs cds pvcs primary) ≡ []
      → All IsKnown cds
  unfolding build_authority_inputs
  build-IsKnown [] primary h = tt
  build-IsKnown (cd ∷ cds) primary h =
      let rest =
        head_read (authority_input cd primary (find_or "" cd.pod pvcs))
          (build_authority_inputs cds pvcs primary) h in
      (authority_input-IsKnown cd primary rest.0, build-IsKnown cds primary rest.1)

  -- If the decision over the inputs that the triage builds names a leader, every instance either had a
  -- text for its timeline that is neither empty nor "unknown", with the fork points of its history if this reads as more than 1, or its data directory was
  -- seen to be empty, or its volume is proven missing.
  pub build_authority_inputs-IsKnown :
      (cds : List ControlRead) (primary : String) (content : Comparator) (pod : String)
      → (determine_authority (build_authority_inputs cds pvcs primary) content).leader ≡ some pod
      → All IsKnown cds
  build_authority_inputs-IsKnown cds primary content pod h =
      build-IsKnown cds primary
        (determine_authority-SafeOver (build_authority_inputs cds pvcs primary) content pod h).0
