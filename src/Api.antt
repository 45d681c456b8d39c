-- ===== src/Api.antt =====
-- api/v1alpha1: the custom resources, their defaults and their validation.
pub mod Cluster
pub mod Types
pub mod Times
pub mod Webhook
