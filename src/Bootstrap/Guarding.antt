-- ===== src/Bootstrap/Guarding.antt =====
-- What stands before a bootstrap that changes the cluster (src/engine/bootstrap/galera.go).
use hasteward.Prelude.{ℕ, any, String, Bool, true, false, not, Option, none, some, ◌≡◌, ◌⊎◌}
use hasteward.CnpgJob.{accepted, committed_unseen, refused}
use hasteward.Triage.{is_empty}
use hasteward.Bootstrap.Gates.{
  NodeRead, BootTriage, BootPlan, boot_refused, boot_online, boot_from, is_recent, serves_now,
  competes,
}
use hasteward.Bootstrap.Execute.{BootState, BootCalls}
use hasteward.Bootstrap.Run.{
  OnlineCalls, BootAnswer, not_started, no_source, only_planned, went_online, went_offline,
  nodes_of, wait_galera_ready,
}
use hasteward.Bootstrap.Rollback.{IsAccounted}

abbrev pub source_of : Option BootTriage → Option String
source_of none = none
source_of (some r) = r.deadlock_target

module _ (force : Bool) where
  abbrev pub IsClear : Bool → Type 0
  IsClear b = (b ≡ false) ⊎ (force ≡ true)

  -- What the gates have seen when they let the offline way go ahead.
  abbrev pub IsLetOffline : Option BootTriage → String → Bool → Type 0
  IsLetOffline none pod belly_up = ⊥
  IsLetOffline (some t) pod belly_up =
      (t.deadlock_target ≡ none)
      × (((t.all_down ≡ true) ⊎ (any serves_now t.nodes_read ≡ false))
          × (((belly_up ≡ true) × ((t.best_seqno_node ≡ none) × (is_empty t.nodes_read ≡ false)))
              ⊎ ((c : NodeRead) × ((t.best_seqno_node ≡ some c)
                    × ((c.pod ≡ pod)
                        × (IsClear (any (competes c) t.nodes_read) × IsClear (not t.safe_data)))))))

  abbrev pub IsLet : Option BootTriage → BootPlan → Type 0
  IsLet t (boot_refused r) = Unit
  IsLet none (boot_online target) = ⊥
  IsLet (some t) (boot_online target) = t.deadlock_target ≡ some target
  IsLet t (boot_from pod belly_up) = IsLetOffline t pod belly_up

  module _ (c : BootCalls) (o : OnlineCalls) (t : Option BootTriage) (dry_run : Bool)
      (start : BootState) where
    abbrev forced_to : String → BootState
    forced_to target = record start { cr_suspended = false; forced = some target }

    -- A run online: nothing has happened, or the resource is resumed and forces the source, or, once a
    -- poll saw the cluster ready and the cleanup took effect, nothing any more.
    abbrev pub IsForced : String → BootAnswer → Type 0
    IsForced target (went_online succeeded s) =
        ((o.force_live ≡ refused) × ((succeeded ≡ false) × (s ≡ start)))
        ⊎ (((o.force_live ≡ accepted) ⊎ (o.force_live ≡ committed_unseen))
            × (((succeeded ≡ false)
                  × (s ≡ record start { cr_suspended = false; forced = some target }))
                ⊎ ((wait_galera_ready o 60 0 ≡ true)
                    × ((succeeded ≡ true)
                        × (((o.clear_live ≡ true)
                              × (s ≡ record start { cr_suspended = false; forced = none }))
                            ⊎ (s ≡ record start { cr_suspended = false; forced = some target }))))))
    IsForced target (not_started r) = ⊥
    IsForced target no_source = ⊥
    IsForced target (only_planned p) = ⊥
    IsForced target (went_offline e) = ⊥

    -- How an answer came about, under a lock of the age.
    abbrev pub IsGuarded : Option ℕ → BootAnswer → Type 0
    IsGuarded age (not_started r) = Unit
    IsGuarded age no_source = Unit
    IsGuarded age (only_planned p) = dry_run ≡ true
    IsGuarded age (went_online succeeded s) =
        (dry_run ≡ false)
        × (IsClear (is_recent age)
            × ((target : String) × ((source_of t ≡ some target)
                  × IsForced target (went_online succeeded s))))
    IsGuarded age (went_offline e) =
        (dry_run ≡ false)
        × (IsClear (is_recent age)
            × ((pod : String) × ((belly_up : Bool) × (IsLetOffline t pod belly_up
                    × IsAccounted c (nodes_of t) pod belly_up force start e))))
