-- ===== src/Lib.antt =====
-- HASteward triages and repairs database clusters (CNPG and Galera) on Kubernetes. This library
-- models the code that decides which data may be destroyed, and the order of the steps that
-- destroy it.
--
-- The parts, and how they interact:
-- - Authority: src/engine/triage/cnpg_authority.go. `relate` compares two instances by their WAL
--   lineage, and `determine_authority` is `determineAuthority`. Authority/Defs and Authority/Decide
--   are the code; Authority/Coverage says which bytes of WAL an instance holds.
-- - Model: the records of src/output/model/results.go that the decisions read.
-- - Triage: Classify of src/engine/triage/classify.go, and cnpgCrossInstanceComparison,
--   classifyInstance and deriveRecovery of src/engine/triage/cnpg.go. They read the decision of
--   Authority.
-- - GaleraTriage: src/engine/triage/galera.go. Data holds what is collected; `derive_effective_seqno`,
--   `galera_instance_comparison` (crossInstanceComparison), `build_assessments` and
--   `maybe_deep_recover` are the functions of these names. A map is a list of entries.
-- - Bootstrap: src/engine/bootstrap/galera.go. Gates and Run are `Bootstrap` with the online remedy,
--   Execute is `executeBootstrap` with its rollback, from any state of the cluster, and Candidate is `selectCandidate` over the
--   positions that the fenced recovery read. A call may take effect although it returns an error.
-- - CnpgJob: src/engine/cnpgjob/offlinejob.go. `run` is `Run`, over the answers of the API server;
--   a write may be committed while its answer is lost.
-- - Escrow: src/engine/escrow/{escrow,select,gate}.go. The provider interface is a record over the
--   state of the storage, and IsLawful is what its comments ask of an implementation.
-- - Repair: src/engine/repair. `run_repair` is `Run` of service.go over the hooks of an engine;
--   `pre_assess` is the deadlock breaker of cnpg_preassess.go; `valid` and `authorizes_clear` are the
--   recovery proof; `run_escrow` is escrow.go; the donor is galera_donor.go; the plans are plan.go
--   and `planPromotion` of cnpg_promote.go. The breaker and the escrow go through Escrow.
--   Waiting is verify.go with VerifyRecovery of cnpg.go and galera.go, and Aim is planTargeted of both
--   with the safety gate of galera.go. HealNode is healNode of galera.go, HealInstance is healInstance
--   and restartInstance of cnpg.go, over CnpgJob.
-- - PruneWal: src/engine/prunewal/cnpg.go. `prune_wal` is `PruneWAL` up to deadlock-recover: its
--   gates, the boundary of the checkpoint, the check of the replicas, and the deletion. `parse_lsn`
--   reads what `format_lsn` (formatLSNU of deadlock.go) prints; a text is the list of its codes.
-- - ControlData: buildAuthorityInputs of src/engine/triage/cnpg.go with the parsers of control data, and
--   those of history files in cnpg_authority.go. They make the inputs of Authority.
-- - Lock: src/engine/cnpgjob/lock.go. Lease holds AcquireClusterLock with its release, and renewLease, as
--   writes on a server that checks versions; Steps lets any number of operations take them in any order, by
--   clocks that stray by a bounded skew, with answers and renewals that may be lost.
-- - Deadlock: src/engine/prunewal/deadlock.go. `deadlock_recover` is `deadlockRecover`, which goes through
--   CnpgJob with the fence kept; `deadlock_recover_on_pvc` is the work of its helper on the volume.
-- - Retention: src/engine/retention/escrow.go, from the grouping of the escrow snapshots to their
--   release, and src/restic/forget.go, from the grouping of backups by job to what is forgotten.
-- - Tests: runs on concrete inputs.
--
-- State is passed explicitly: an operation that calls the cluster takes the state and returns it, and
-- what it calls is a field of a record (Api, EscrowProvider, Backend, Repairer, BreakerHooks,
-- EscrowHooks), so the theorems hold for every behaviour of the cluster between two calls. The
-- calls that matter are kept in a log.
--
-- Bounds: Galera positions are ℤ, below their bounds, which no computation of the model reaches. LSNs of the
-- triage, timelines and byte counts are non-negative int64 values in the code and natural
-- numbers here; the one sum that can overflow, in the space check of the escrow, wraps as the code
-- does. Loops with a limit in the code (the polls of the job, the restore of the loop) recurse on that
-- limit, so no fuel is invented. `sort.Slice` and `sort.Strings` are an insertion sort, or the choice
-- of the first where only that is used.
--
-- The wait of verify.go ends by the clock: it recurses on fuel, and a fuel of one more than the time-out
-- is enough when every attempt takes at least a positive interval. A policy of retention has no negative
-- numbers. Spaces are the ASCII ones. Iterations over a Go map follow the order of the list.
--
-- Not modelled: the collection of data from pods, the providers' implementations, backup and restore, the commands, and all
-- text for the operator.
pub mod Prelude
pub mod Authority
pub mod Bootstrap
pub mod CnpgJob
pub mod ControlData
pub mod Deadlock
pub mod Escrow
pub mod GaleraTriage
pub mod Lock
pub mod Model
pub mod Triage
pub mod PruneWal
pub mod Repair
pub mod Retention
pub mod Tests
