-- ===== src/Apps.antt =====
-- controllers/apps: the reconcilers of an API manager's backup and of its restore.
pub mod Backup
pub mod Restore
