-- ===== src/K8s.antt =====
-- internal/k8s/deployments.go: names, pod templates, and the state of the cluster.
pub mod State
pub mod Names
pub mod Pods
