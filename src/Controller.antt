-- ===== src/Controller.antt =====
-- internal/controller: the reconciler and what it is made of.
pub mod Client
pub mod Rules
pub mod HashHeader
pub mod Secrets
pub mod Reload
pub mod PodExec
pub mod Identity
pub mod Conditions
pub mod Users
pub mod Accounts
pub mod Reconcile
pub mod Requests
pub mod Panics
