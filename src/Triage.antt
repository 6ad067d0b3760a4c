-- ===== src/Triage.antt =====
-- Triage (src/engine/triage): the comparison across instances, the class of response, and the
-- projection that the deadlock breaker reads.
mod Verdict
mod Comparison
pub mod Safety
pub mod Response
pub mod Recovering
unfoldable pub use Verdict.*
unfoldable pub use Comparison.*
