-- ===== src/Debug.antt =====
-- cmd/nats-debug/main.go: a tool that tells who is connected to the NATS servers of a cluster, and
-- looks for the reason where nobody is.
pub mod Flags
pub mod Environment
pub mod Discover
pub mod Servers
pub mod Closed
pub mod UserStatus
pub mod Shown
pub mod Users
pub mod Accounts
pub mod Commands
