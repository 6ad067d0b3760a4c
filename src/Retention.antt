-- ===== src/Retention.antt =====
-- Retention (src/engine/retention and src/restic/forget.go): the escrow snapshots and the backups that
-- are released.
mod Escrows
mod Jobs
pub mod Release
pub mod Pruning
pub mod Keeping
unfoldable pub use Escrows.*
unfoldable pub use Jobs.*
