-- ===== src/Bootstrap/Rollback.antt =====
-- A bootstrap commits for a reason, or rolls back (src/engine/bootstrap/galera.go).
use hasteward.Prelude.{String, Bool, true, false, ◌&&◌, not, none, some, List, ◌≡◌, ◌⊎◌, Elem}
use hasteward.Bootstrap.Candidate.{build_lineage_groups, several, select_candidate}
use hasteward.Bootstrap.Gates.{NodeRead}
use hasteward.Bootstrap.Execute.{
  BootState, BootCalls, BootRun, BootEnd, no_flags, recover_nodes, is_assessed, positions,
}
use hasteward.Bootstrap.Committing.{IsCarried}
use hasteward.Bootstrap.Stages.{IsDisturbed, IsRolledBack}

module _ (c : BootCalls) (nodes : List NodeRead) (candidate : String) (belly_up force : Bool)
    (start : BootState) where
  -- Why the run may force the cluster to start from the pod.
  abbrev pub IsJustifiedBoot : String → Type 0
  IsJustifiedBoot pod =
      (c.escrowed ≡ true)
      × ((c.wait_terminated ≡ true)
          × ((select_candidate candidate (positions c nodes) (recover_nodes c nodes) force
                ≡ some pod)
              × (((belly_up
                      && (not force && several (build_lineage_groups (recover_nodes c nodes))))
                    ≡ false)
                  × (is_assessed c nodes pod ≡ true))))

  abbrev pub IsAccounted : BootEnd → Type 0
  IsAccounted e =
      ((pod : String) × ((e.committed ≡ some pod)
          × (IsJustifiedBoot pod × IsCarried c pod e.final)))
      ⊎ ((e.committed ≡ none)
          × ((e.succeeded ≡ false) × (IsRolledBack c start e.final ⊎ IsDisturbed c)))

  abbrev Was : String → Type 0
  Was p = Elem p start.marked

  abbrev begun_run : BootRun
  begun_run = record { flags = no_flags; candidate = candidate; cr = start }
