-- ===== src/Capabilities.antt =====
-- controllers/capabilities: what the controllers of 3scale's own resources decide.
pub mod Credentials
pub mod Params
pub mod SyncProduct
pub mod Proxy
pub mod Entity
pub mod Sync
pub mod Methods
pub mod Metrics
