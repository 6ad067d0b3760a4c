-- ===== src/Authority.antt =====
-- The CNPG authority decision (src/engine/triage/cnpg_authority.go): its values, the lineage
-- comparison of two instances, and the verdict over all of them.
mod Defs
mod Decide
pub mod Coverage
pub mod Cases
pub mod Symmetry
pub mod Sound
pub mod Rows
pub mod Leader
pub mod Progress
unfoldable pub use Defs.*
unfoldable pub use Decide.*
