-- ===== src/Api.antt =====
-- The resources of api/v1alpha1: one module for each file of types, and the JSON form of
-- `AllowResponsesSpec`.
pub mod Meta
pub mod Responses
pub mod User
pub mod Account
pub mod Cluster
