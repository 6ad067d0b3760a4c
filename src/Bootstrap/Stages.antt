-- ===== src/Bootstrap/Stages.antt =====
-- What a bootstrap can undo, and that its rollback does (src/engine/bootstrap/galera.go).
use hasteward.Prelude.{
  any, select, String, Bool, true, false, ◌&&◌, not, none, List, [], ◌∷◌, ◌≡◌, refl, sym, ◌⊎◌, inl,
  inr, Elem, Elem-select, All, All-intro, All-Elem, Bool-cases, str_eq, eq_iff, arith,
}
use hasteward.CnpgJob.{Outcome, committed_unseen}
use hasteward.Bootstrap.Execute.{BootState, BootCalls, BootRun, undo_to, without, rescue}

abbrev pub is_unseen : Outcome → Bool
is_unseen committed_unseen = true
is_unseen _ = false

-- The calls that undo all succeed.
abbrev pub undone : BootCalls → Bool
undone c = c.clear_force && (c.revert_mark && (c.clear_lock && (c.scale_back && c.resume)))

abbrev pub outcomes : BootCalls → List Outcome
outcomes c = c.suspend ∷ c.set_lock ∷ c.scale_down ∷ c.mark_safe ∷ c.patch_force ∷ c.scale_up ∷ []

-- A call that undoes fails, or a call takes effect with an error.
abbrev pub IsDisturbed : BootCalls → Type 0
IsDisturbed c = (undone c ≡ false) ⊎ (any is_unseen (outcomes c) ≡ true)

and_both : (a b : Bool) → (a && b) ≡ true → (a ≡ true) × (b ≡ true)
and_both true b h = (refl, h)
and_both false b h = absurd (cc)

pub any-unseen :
    (o : Outcome) (os : List Outcome) → Elem o os → o ≡ committed_unseen → any is_unseen os ≡ true
any-unseen o [] m e = elim m [ ]
any-unseen o (p ∷ os) (inl q) e = rw (sym q) (rw e refl)
any-unseen o (p ∷ os) (inr m) e = elim (Bool-cases (is_unseen p)) [
  | inl t ↦ rw t refl
  | inr f ↦ rw f (any-unseen o os m e)
]

undo_to-lem :
    {A : Type 0} (flag ok : Bool) (rest now start : A)
    → ok ≡ true
    → (flag ≡ true) ⊎ (now ≡ start)
    → (undo_to flag ok rest now ≡ start) ⊎ (undo_to flag ok rest now ≡ rest)
undo_to-lem true true rest now start e k = inr refl
undo_to-lem true false rest now start e k = absurd (cc)
undo_to-lem false ok rest now start e (inl f) = absurd (cc)
undo_to-lem false ok rest now start e (inr q) = inl q

-- Fewer of them.
pub select-All :
    (P : String → Type 0) (test : String → Bool) (l : List String) → All P l → All P (select test l)
select-All P test l h =
    All-intro P (select test l) (λ p at'. All-Elem P p l h (Elem-select test p l at').0)

without-All :
    (P : String → Type 0) (pod : String) (l : List String)
    → All (λ p. (p ≡ pod) ⊎ P p) l
    → All P (without pod l)
without-All P pod l h = All-intro P (without pod l) (λ p at'.
    let kept = Elem-select (λ p. not (str_eq p pod)) p l at' in
    elim (All-Elem (λ p. (p ≡ pod) ⊎ P p) p l h kept.0) [
      | inl same ↦ absurd (ground (arith, kept.1, (eq_iff p pod).1 same))
      | inr k ↦ k
    ])

module _ (c : BootCalls) (start : BootState) where
  -- Each field is as at the start, or what a bootstrap leaves at rest, and no node is marked that was
  -- not. The caches that are gone do not come back, nor do stale marks.
  abbrev pub IsRolledBack : BootState → Type 0
  IsRolledBack s =
      ((s.cr_suspended ≡ start.cr_suspended) ⊎ (s.cr_suspended ≡ false))
      × (((s.lock_set ≡ start.lock_set) ⊎ (s.lock_set ≡ false))
          × (((s.replicas ≡ start.replicas) ⊎ (s.replicas ≡ c.original_replicas))
              × (((s.forced ≡ start.forced) ⊎ (s.forced ≡ none))
                  × (All (λ p. Elem p start.marked) s.marked
                      × (s.recovery_noted ≡ start.recovery_noted)))))

  abbrev pub IsMarkUndoable : BootRun → Type 0
  IsMarkUndoable r =
      All (λ p. Elem p start.marked) r.cr.marked
      ⊎ ((r.flags.safe_boot_marked ≡ true)
          × All (λ p. (p ≡ r.candidate) ⊎ Elem p start.marked) r.cr.marked)

  -- What differs from the start has its flag.
  abbrev pub IsFlagged : BootRun → Type 0
  IsFlagged r =
      ((r.flags.suspended ≡ true) ⊎ (r.cr.cr_suspended ≡ start.cr_suspended))
      × (((r.flags.gen_locked ≡ true) ⊎ (r.cr.lock_set ≡ start.lock_set))
          × (((r.flags.scaled_down ≡ true) ⊎ (r.cr.replicas ≡ start.replicas))
              × (((r.flags.force_patched ≡ true) ⊎ (r.cr.forced ≡ start.forced))
                  × (r.cr.recovery_noted ≡ start.recovery_noted))))

  unmarked :
      (flag ok : Bool) (pod : String) (l : List String)
      → ok ≡ true
      → All (λ p. Elem p start.marked) l
        ⊎ ((flag ≡ true) × All (λ p. (p ≡ pod) ⊎ Elem p start.marked) l)
      → All (λ p. Elem p start.marked) (undo_to flag ok (without pod l) l)
  unmarked true true pod l e (inl k) =
      select-All (λ p. Elem p start.marked) (λ p. not (str_eq p pod)) l k
  unmarked true true pod l e (inr k) = without-All (λ p. Elem p start.marked) pod l k.1
  unmarked true false pod l e k = absurd (cc)
  unmarked false ok pod l e (inl k) = k
  unmarked false ok pod l e (inr k) = absurd (cc)

  pub rescue-IsRolledBack :
      (r : BootRun)
      → undone c ≡ true
      → IsFlagged r
      → IsMarkUndoable r
      → IsRolledBack (rescue c r).final
  rescue-IsRolledBack r h k m =
      let (unforced, h1) = and_both c.clear_force _ h in
      let (reverted, h2) = and_both c.revert_mark _ h1 in
      let (unlocked, h3) = and_both c.clear_lock _ h2 in
      let (rescaled, resumed) = and_both c.scale_back c.resume h3 in
      let (one, (two, (three, (four, five)))) = k in
      (
        undo_to-lem r.flags.suspended c.resume false r.cr.cr_suspended start.cr_suspended resumed
            one,
        (
          undo_to-lem r.flags.gen_locked c.clear_lock false r.cr.lock_set start.lock_set unlocked
              two,
          (
            undo_to-lem r.flags.scaled_down c.scale_back c.original_replicas r.cr.replicas
                start.replicas rescaled three,
            (
              undo_to-lem r.flags.force_patched c.clear_force none r.cr.forced start.forced unforced
                  four,
              (
                unmarked r.flags.safe_boot_marked c.revert_mark r.candidate r.cr.marked reverted m,
                five,
              ),
            ),
          ),
        ),
      )
