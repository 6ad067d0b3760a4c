-- ===== src/Escrow/Selecting.antt =====
-- When each provider is chosen.
use hasteward.Prelude.{
  String, ◌≡◌, refl, ap, ◌∙◌, ◌≢◌, ◌⊎◌, inl, inr, Bool, true, false, not, ◌&&◌, Option, none, some,
  List, [], ◌∷◌, Elem, arith, if◌then◌else◌, Bool-cases, str_eq, eq_iff,
}
use hasteward.Escrow.Defs.{Config}
use hasteward.Escrow.Select.{
  SnapshotClass, Storage, restic, snapshot, escrow_unavailable, Selection, selected, select_refused,
  any_live_writer, first_with_driver, explicit_class, first_class, match_snapshot_class, restic_ok,
  fall_back, select_class, select_provider,
}

-- The class that a snapshot of the set would use: the configured one, or a match.
abbrev pub usable_class : Config → Storage → String → Option String
usable_class cfg st pvc =
    if str_eq cfg.snapshot_class "" then match_snapshot_class st pvc else some cfg.snapshot_class

-- The outcome of a selection for a set that is not empty.
abbrev pub IsJustified : Config → Storage → String → List String → Selection → Type 0
IsJustified cfg st pvc pvcs (selected restic) =
    (restic_ok cfg ≡ true)
    × ((any_live_writer st (pvc ∷ pvcs) ≡ false)
        ⊎ (usable_class cfg st pvc ≡ none)
        ⊎ (usable_class cfg st pvc ≡ some ""))
IsJustified cfg st pvc pvcs (selected (snapshot class)) =
    (class ≢ "")
    × (usable_class cfg st pvc ≡ some class)
    × ((restic_ok cfg ≡ false) ⊎ (any_live_writer st (pvc ∷ pvcs) ≡ true))
IsJustified cfg st pvc pvcs (select_refused e) =
    (e ≡ escrow_unavailable)
    × (restic_ok cfg ≡ false)
    × ((usable_class cfg st pvc ≡ none) ⊎ (usable_class cfg st pvc ≡ some ""))

and_not : (a b : Bool) → (a && not b) ≡ true → (a ≡ true) × (b ≡ false)
and_not a b h = ground arith

not_and_not : (a b : Bool) → (a && not b) ≡ false → (a ≡ false) ⊎ (b ≡ true)
not_and_not a b h = ground arith

module _ (cfg : Config) (st : Storage) (pvc : String) (pvcs : List String) where
  fall_back-IsJustified :
      (usable_class cfg st pvc ≡ none) ⊎ (usable_class cfg st pvc ≡ some "")
      → IsJustified cfg st pvc pvcs (fall_back cfg)
  fall_back-IsJustified u = elim (Bool-cases (restic_ok cfg)) [
    | inl e ↦ rw e (e, inr u)
    | inr e ↦ rw e (refl, e, u)
  ]

  select_class-IsJustified :
      (o : Option String)
      → (restic_ok cfg ≡ false) ⊎ (any_live_writer st (pvc ∷ pvcs) ≡ true)
      → usable_class cfg st pvc ≡ o
      → IsJustified cfg st pvc pvcs (select_class cfg o)
  select_class-IsJustified none live e = fall_back-IsJustified (inl e)
  select_class-IsJustified (some class) live e = elim (Bool-cases (str_eq class "")) [
    | inl q ↦ rw q (fall_back-IsJustified (inr (e ∙ ap some ((eq_iff class "").0 q))))
    | inr q ↦ rw q (λ n. ground (arith, eq_iff class "", n, q), e, live)
  ]

  -- For a recovery set that is not empty: restic is chosen only if it is configured and either no
  -- live writer mounts the set or no snapshot class is usable; a snapshot is chosen only of a usable
  -- class, if restic is not configured or something may be writing; and the selection is refused
  -- only if restic is not configured and no class is usable.
  pub select_provider-IsJustified :
      IsJustified cfg st pvc pvcs (select_provider cfg st (pvc ∷ pvcs))
  unfolding select_provider
  select_provider-IsJustified =
      elim (Bool-cases (restic_ok cfg && not (any_live_writer st (pvc ∷ pvcs)))) [
        | inl quiet ↦
            let both = and_not (restic_ok cfg) (any_live_writer st (pvc ∷ pvcs)) quiet in
            rw (quiet, select_provider) (both.0, inl both.1)
        | inr busy ↦
            let live = not_and_not (restic_ok cfg) (any_live_writer st (pvc ∷ pvcs)) busy in
            rw (busy, select_provider)
              (elim (Bool-cases (str_eq cfg.snapshot_class "")) [
                | inl e ↦ rw e (select_class-IsJustified (match_snapshot_class st pvc) live (rw e))
                | inr e ↦ rw e (λ n. ground (arith, eq_iff cfg.snapshot_class "", n, e), rw e, live)
              ])
      ]

first_with_driver-Elem :
    (provisioner class : String) (cs : List SnapshotClass)
    → first_with_driver provisioner cs ≡ some class
    → (c : SnapshotClass) × Elem c cs × (c.name ≡ class) × (c.driver ≡ provisioner)
unfolding first_with_driver
first_with_driver-Elem provisioner class [] h = absurd (cc)
first_with_driver-Elem provisioner class (c ∷ cs) h =
    elim (Bool-cases (str_eq c.driver provisioner)) [
      | inl e ↦
          let q : some c.name ≡ some class = rw (e, first_with_driver) at h in
          (c, inl refl, cc, (eq_iff c.driver provisioner).0 e)
      | inr e ↦
          let (d, m, n, p) =
            first_with_driver-Elem provisioner class cs (rw (e, first_with_driver) at h) in
          (d, inr m, n, p)
    ]

explicit_class-eq :
    (o : Option (Option String)) (class : String)
    → explicit_class o ≡ some class
    → o ≡ some (some class)
explicit_class-eq none class h = absurd (cc)
explicit_class-eq (some none) class h = absurd (cc)
explicit_class-eq (some (some c)) class h = elim (Bool-cases (str_eq c "")) [
  | inl e ↦ absurd (let q : none ≡ some class = rw e at h in cc)
  | inr e ↦ let q : some c ≡ some class = rw e at h in cc
]

-- A class that `matchSnapshotClass` returns is listed, and its driver is the provisioner of the
-- storage class that the volume names.
pub match_snapshot_class-Elem :
    (st : Storage) (pvc class : String)
    → match_snapshot_class st pvc ≡ some class
    → (storage provisioner : String) × (st.class_of pvc ≡ some (some storage))
      × (st.provisioner_of storage ≡ some provisioner)
      × (cs : List SnapshotClass) × (st.snapshot_classes ≡ some cs)
      × (c : SnapshotClass) × Elem c cs
      × (c.name ≡ class)
      × (c.driver ≡ provisioner)
unfolding match_snapshot_class
match_snapshot_class-Elem st pvc class h = named (explicit_class (st.class_of pvc)) refl h
  where
    Found : Type 0
    Found =
        (storage provisioner : String) × (st.class_of pvc ≡ some (some storage))
        × (st.provisioner_of storage ≡ some provisioner)
        × (cs : List SnapshotClass) × (st.snapshot_classes ≡ some cs)
        × (c : SnapshotClass) × Elem c cs
        × (c.name ≡ class)
        × (c.driver ≡ provisioner)

    listed :
        (storage : String) (p : Option String) (l : Option (List SnapshotClass))
        → st.class_of pvc ≡ some (some storage)
        → st.provisioner_of storage ≡ p
        → st.snapshot_classes ≡ l
        → first_class p l ≡ some class
        → Found
    listed storage none l e q w h' = absurd (cc)
    listed storage (some p) none e q w h' = absurd (cc)
    listed storage (some p) (some cs) e q w h' =
        let (c, m, n, d) = first_with_driver-Elem p class cs h' in
        (storage, p, e, q, cs, w, c, m, n, d)

    named :
        (o : Option String)
        → explicit_class (st.class_of pvc) ≡ o
        → (elim o as (λ _. Option String) [
          | none ↦ none
          | some storage ↦ first_class (st.provisioner_of storage) st.snapshot_classes
        ])
          ≡ some class
        → Found
    named none e h' = absurd (cc)
    named (some storage) e h' =
        listed storage (st.provisioner_of storage) st.snapshot_classes
          (explicit_class-eq _ storage e) refl refl h'
