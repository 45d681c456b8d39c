-- ===== src/Planner.antt =====
-- internal/planner/planner.go: from the state of the cluster and of the server to a plan.
pub mod Types
pub mod Delete
pub mod Scale
pub mod Create
pub mod Gate
pub mod Update
pub mod Rollout
pub mod Config
pub mod Plan
