-- ===== src/GaleraTriage.antt =====
-- src/engine/triage/galera.go: what the triage of a Galera cluster collects, the position of each
-- node, the comparison across the nodes, the assessment of each node, and the fenced recovery.
pub mod Data
mod Seqno
mod Comparison
mod Assessment
mod DeepRecovery
pub mod Fence
pub mod Position
pub mod Lineage
pub mod Quorum
pub mod Healing
unfoldable pub use Seqno.*
unfoldable pub use Comparison.*
unfoldable pub use Assessment.*
unfoldable pub use DeepRecovery.*
