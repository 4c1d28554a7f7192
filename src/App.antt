-- ===== src/App.antt =====
-- The crate crates/heyl-app: the rules of the commands, and what they fail with.
pub mod Error
pub mod Settings
pub mod Get
pub mod Ports
pub mod Slots
pub mod Action
pub mod Unlock
pub mod MetaVault
pub mod Session
pub mod Recovery
pub mod Doctor
