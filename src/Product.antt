-- ===== src/Product.antt =====
-- apis/capabilities/v1beta1/product_types.go: the Product resource.
pub mod Deployment
pub mod Types
pub mod Accessors
pub mod Defaults
pub mod References
pub mod Overlap
pub mod Validate
