-- ===== src/Tests.antt =====
-- Sample data, runs of the definitions on it, and the theorems at concrete inputs.
pub mod Data
mod Rollouts
mod Deployments
mod Names
mod Updates
pub mod Servers
mod Webhooks
pub mod Cluster
mod Rounds
mod Completed
pub mod Pools
