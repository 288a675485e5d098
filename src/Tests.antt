-- ===== src/Tests.antt =====
-- Runs of the definitions at concrete inputs, and the theorems at inputs that meet their hypotheses.
pub mod Conditions
pub mod Helper
pub mod Product
pub mod Accessors
pub mod Backup
pub mod Deployment
pub mod Restore
pub mod Capabilities
pub mod SyncProduct
pub mod Methods
pub mod Metrics
pub mod Proxy
pub mod Reconciler
pub mod Tasks
