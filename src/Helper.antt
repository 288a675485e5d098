-- ===== src/Helper.antt =====
-- pkg/helper: the helpers on slices, environment variables and tasks that the reconcilers share.
pub mod Slices
pub mod EnvVars
pub mod Tasks
