-- ===== src/Server.antt =====
-- internal/temporal/worker_deployment.go: the state of a worker deployment on the Temporal server.
pub mod Types
pub mod Client
pub mod Pollers
pub mod Deployment
pub mod TestWorkflows
