-- ===== src/CnpgJob.antt =====
-- The offline PVC job (src/engine/cnpgjob): the cluster as the job sees it, the job, and what it
-- leaves behind on every way out.
mod Annotations
mod Run
pub mod Reconcile
pub mod Fencing
pub mod Switches
pub mod Order
pub mod Working
unfoldable pub use Annotations.*
unfoldable pub use Run.*
