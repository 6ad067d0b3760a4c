-- ===== src/Tests.antt =====
-- Runs on concrete inputs: each theorem with hypotheses applied where they hold, and tests.
mod AuthorityRuns
mod JobRuns
mod LockRuns
mod EscrowRuns
mod TriageRuns
mod RepairRuns
mod BreakerRuns
mod RetentionRuns
mod DonorRuns
mod GaleraRuns
mod HealRuns
mod PruneRuns
mod BootstrapRuns
mod ControlRuns
mod NodeRuns
mod DeadlockRuns
