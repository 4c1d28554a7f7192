-- ===== src/Platform.antt =====
-- crates/heyl-platform/src: where the ports are implemented.
pub mod Headless
pub mod Scenario
