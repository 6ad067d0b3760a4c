-- ===== src/Bootstrap/Run.antt =====
-- `Bootstrap`, `bootstrapOnline` and `waitGaleraReady` of src/engine/bootstrap/galera.go: the gates, the
-- dry run, and the two ways to bootstrap.
use hasteward.Prelude.{
  ℕ, zero, suc, String, Bool, true, false, Option, none, some, if◌then◌else◌, List, [], str_eq,
}
use hasteward.CnpgJob.{Outcome, accepted, committed_unseen, refused}
use hasteward.Bootstrap.Gates.{
  NodeRead, BootTriage, BootRefusal, BootPlan, boot_refused, boot_online, boot_from, plan_bootstrap,
}
use hasteward.Bootstrap.Execute.{BootState, BootCalls, BootEnd, execute_bootstrap}

pub record OnlineCalls : Type 0 where
  pub force_live : Outcome
  -- A poll that reads the condition GaleraReady as True.
  pub galera_ready : ℕ → Bool
  pub clear_live : Bool

pub data BootAnswer : Type 0 where
  not_started : BootRefusal → BootAnswer
  -- The deadlock was diagnosed without a source.
  no_source : BootAnswer
  only_planned : BootPlan → BootAnswer
  went_online : (succeeded : Bool) → BootState → BootAnswer
  went_offline : BootEnd → BootAnswer

module _ (o : OnlineCalls) where
  -- With the polls that are left.
  unfoldable pub wait_galera_ready : ℕ → ℕ → Bool
  wait_galera_ready zero i = false
  wait_galera_ready (suc left) i =
      let later = wait_galera_ready left (suc i) in if o.galera_ready i then true else later

  abbrev pub clear_after : Bool → BootState → BootAnswer
  clear_after false s = went_online false s
  clear_after true s = went_online true (if o.clear_live then record s { forced = none } else s)

  abbrev pub force_and_wait : Outcome → String → BootState → BootAnswer
  force_and_wait refused target s = went_online false s
  force_and_wait committed_unseen target s =
      went_online false (record s { cr_suspended = false; forced = some target })
  force_and_wait accepted target s =
      clear_after (wait_galera_ready 60 0) (record s { cr_suspended = false; forced = some target })

  unfoldable pub bootstrap_online : String → Bool → BootState → BootAnswer
  bootstrap_online target dry_run s =
      if str_eq target ""
      then no_source
      else if dry_run
      then only_planned (boot_online target)
      else force_and_wait o.force_live target s

abbrev pub nodes_of : Option BootTriage → List NodeRead
nodes_of none = []
nodes_of (some t) = t.nodes_read

module _ (c : BootCalls) (o : OnlineCalls) (t : Option BootTriage) (force dry_run : Bool)
    (start : BootState) where
  abbrev pub carry_out : BootPlan → BootAnswer
  carry_out (boot_refused r) = not_started r
  carry_out (boot_online target) = bootstrap_online o target dry_run start
  carry_out (boot_from pod belly_up) =
      if dry_run
      then only_planned (boot_from pod belly_up)
      else went_offline (execute_bootstrap c (nodes_of t) pod belly_up force start)

  unfoldable pub bootstrap : Option ℕ → BootAnswer
  bootstrap lock_age = carry_out (plan_bootstrap lock_age t force)
