-- ===== src/CnpgJob/Switches.antt =====
-- The switches that the log of a job tells (src/engine/cnpgjob/offlinejob.go): the fence of the target
-- and the reconciliation loop.
use hasteward.Prelude.{
  ℕ, zero, suc, ◌≡◌, refl, sym, subst, ◌∙◌, ap, Bool, true, false, Option, List, [], ◌∷◌, ◌++◌,
}
use hasteward.CnpgJob.Annotations.{
  Outcome, accepted, committed_unseen, refused, Cluster, Event, fence_written, reconcile_disabled,
  reconcile_enabled, unfence_written, helper_created, target_deleted, work_done, commit, emit,
}
use hasteward.CnpgJob.Run.{
  Api, Failure, Phase, unknown, pending, unschedulable, running, succeeded, failed, on_phase,
  acquire,
}

-- The two switches as the log tells them: the loop is off, and the target is fenced.
pub record Switches : Type 0 where
  pub off : Bool
  pub fenced : Bool

abbrev pub after_event : Event → Switches → Switches
after_event fence_written s = record s { fenced = true }
after_event reconcile_disabled s = record s { off = true }
after_event reconcile_enabled s = record s { off = false }
after_event unfence_written s = record s { fenced = false }
after_event _ s = s

abbrev pub IsAllowed : Event → Switches → Type 0
IsAllowed helper_created s = (s.off ≡ true) × (s.fenced ≡ true)
IsAllowed target_deleted s = (s.off ≡ true) × (s.fenced ≡ true)
IsAllowed work_done s = (s.off ≡ true) × (s.fenced ≡ true)
IsAllowed _ s = Unit

-- Every event of the log is allowed where it stands.
abbrev pub IsOrderly : Switches → List Event → Type 0
IsOrderly s [] = Unit
IsOrderly s (e ∷ l) = IsAllowed e s × IsOrderly (after_event e s) l

abbrev pub after_log : Switches → List Event → Switches
after_log s [] = s
after_log s (e ∷ l) = after_log (after_event e s) l

pub IsOrderly-snoc :
    (s : Switches) (l : List Event) (e : Event)
    → IsOrderly s l
    → IsAllowed e (after_log s l)
    → IsOrderly s (l ++ e ∷ [])
IsOrderly-snoc s [] e h a = (a, tt)
IsOrderly-snoc s (f ∷ l) e h a = (h.0, IsOrderly-snoc (after_event f s) l e h.1 a)

pub after_log-snoc :
    (s : Switches) (l : List Event) (e : Event)
    → after_log s (l ++ e ∷ []) ≡ after_event e (after_log s l)
after_log-snoc s [] e = refl
after_log-snoc s (f ∷ l) e = after_log-snoc (after_event f s) l e

-- The log is orderly so far, and tells the switches.
pub record IsAt (start now : Switches) (c : Cluster) : Type 0 where
  pub orderly : IsOrderly start c.log
  pub told : after_log start c.log ≡ now

pub IsAt-emit :
    (start now : Switches) (c : Cluster) (e : Event)
    → IsAt start now c
    → IsAllowed e now
    → IsAt start (after_event e now) (emit e c)
IsAt-emit start now c e h a = record {
  orderly = IsOrderly-snoc start c.log e h.orderly (subst (IsAllowed e) (sym h.told) a);
  told = after_log-snoc start c.log e ∙ ap (after_event e) h.told;
}

abbrev pub held : Switches
held = record { off = true; fenced = true }

pub IsAt-commit :
    (start now : Switches) (c : Cluster) (e : Event) (o : Outcome)
    → IsAt start now c
    → IsAllowed e now
    → after_event e now ≡ now
    → IsAt start now (commit o (emit e) c)
IsAt-commit start now c e accepted h a q =
    subst (λ s. IsAt start s (emit e c)) q (IsAt-emit start now c e h a)
IsAt-commit start now c e committed_unseen h a q =
    subst (λ s. IsAt start s (emit e c)) q (IsAt-emit start now c e h a)
IsAt-commit start now c e refused h a q = h

pub on_phase-IsAt :
    (start : Switches) (p : Phase) (later : Option Failure × Cluster) (c : Cluster)
    → IsAt start held c
    → IsAt start held later.1
    → IsAt start held (on_phase p later c).1
on_phase-IsAt start running later c h l = h
on_phase-IsAt start succeeded later c h l = h
on_phase-IsAt start failed later c h l = h
on_phase-IsAt start unschedulable later c h l = h
on_phase-IsAt start unknown later c h l = l
on_phase-IsAt start pending later c h l = l

pub acquire-IsAt :
    (start : Switches) (api : Api) (left i : ℕ) (c : Cluster)
    → IsAt start held c
    → IsAt start held (acquire api left i c).1
unfolding acquire
acquire-IsAt start api zero i c h = h
acquire-IsAt start api (suc left) i c h =
    let deleted = commit (api.delete_target i) (emit target_deleted) c in
    on_phase-IsAt start (api.acquire_phase i) _ c h (
      acquire-IsAt start api left (suc i) deleted
        (IsAt-commit start held c target_deleted (api.delete_target i) h (refl, refl) refl))
