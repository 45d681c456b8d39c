-- ===== src/Controller.antt =====
-- internal/controller: a round of the reconciler, from what it reads to what it asks for.
pub mod Status
pub mod Commands
pub mod Execute
pub mod Generate
pub mod Environment
pub mod Reconcile
