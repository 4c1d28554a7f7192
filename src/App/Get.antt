-- ===== src/App/Get.antt =====
-- crates/heyl-app/src/get.rs: reading one login, or one of its fields.
pub mod Query
pub mod Fields
pub mod Search
pub mod Run
pub mod Vaults
