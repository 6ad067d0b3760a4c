-- ===== src/Bootstrap/Committing.antt =====
-- What a bootstrap past the scale up leaves (STEP 9 to STEP 11 of src/engine/bootstrap/galera.go).
use hasteward.Prelude.{
  ℕ, zero, suc, String, Bool, true, false, none, some, if◌then◌else◌, ◌≡◌, refl, ◌⊎◌, inl, inr,
  Elem, Bool-cases,
}
use hasteward.Bootstrap.Execute.{
  BootState, BootCalls, BootRun, clean_force, clean_status, after_commit,
}

module _ (c : BootCalls) (pod : String) where
  -- The pod is marked, the declared replicas are there, and the resource forces it or, cleaned up,
  -- nothing.
  abbrev pub IsCarried : BootState → Type 0
  IsCarried s =
      Elem pod s.marked
      × ((s.replicas ≡ c.original_replicas) × ((s.forced ≡ some pod) ⊎ (s.forced ≡ none)))

  clean_force-IsCarried :
      (left i : ℕ) (s : BootState) → IsCarried s → IsCarried (clean_force c left i s)
  unfolding clean_force
  clean_force-IsCarried zero i s k = k
  clean_force-IsCarried (suc left) i s k = elim (Bool-cases (c.cleanup_patch i)) [
    | inl e ↦ elim (Bool-cases (c.cleanup_gone i)) [
      | inl g ↦ rw (e, g) (k.0, (k.1.0, inr refl))
      | inr g ↦
          rw (e, g)
            (clean_force-IsCarried left (suc i) (record s { forced = none })
              (k.0, (k.1.0, inr refl)))
    ]
    | inr e ↦ rw e (clean_force-IsCarried left (suc i) s k)
  ]

  clean_status-IsCarried :
      (left i : ℕ) (s : BootState) → IsCarried s → IsCarried (clean_status c left i s)
  unfolding clean_status
  clean_status-IsCarried zero i s k = k
  clean_status-IsCarried (suc left) i s k = elim (Bool-cases (c.clear_status i)) [
    | inl e ↦ rw e k
    | inr e ↦ rw e (clean_status-IsCarried left (suc i) s k)
  ]

  unlock-IsCarried :
      (b : Bool) (s : BootState)
      → IsCarried s
      → IsCarried (if b then record s { lock_set = false } else s)
  unlock-IsCarried true s k = k
  unlock-IsCarried false s k = k

  resume-IsCarried :
      (b : Bool) (s : BootState)
      → IsCarried s
      → IsCarried (if b then record s { cr_suspended = false } else s)
  resume-IsCarried true s k = k
  resume-IsCarried false s k = k

  pub after_commit-IsCarried :
      (r : BootRun) → IsCarried r.cr → IsCarried (after_commit c pod r).final
  unfolding after_commit
  after_commit-IsCarried r k = resume-IsCarried c.resume _ (
      unlock-IsCarried c.clear_lock _
        (clean_status-IsCarried 5 0 _ (clean_force-IsCarried 5 0 r.cr k)))
