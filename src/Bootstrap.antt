-- ===== src/Bootstrap.antt =====
-- Bootstrap (src/engine/bootstrap/galera.go): which node a Galera cluster is bootstrapped from, and the
-- run that does it or rolls back.
mod Candidate
mod Gates
mod Execute
mod Run
pub mod Winners
pub mod Majority
pub mod Choosing
pub mod Stages
pub mod Committing
pub mod Rollback
pub mod Guarding
unfoldable pub use Candidate.*
unfoldable pub use Gates.*
unfoldable pub use Execute.*
unfoldable pub use Run.*
