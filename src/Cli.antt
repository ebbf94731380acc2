-- ===== src/Cli.antt =====
-- cmd/cli: the command line tool, which works on manifests without a cluster.
pub mod Loader
pub mod Build
pub mod Validate
pub mod Files
pub mod Commands
