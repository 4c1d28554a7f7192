-- ===== src/Domain.antt =====
-- The crate crates/heyl-domain: identifiers, kinds, times, the session policy and the backend's view of
-- the account.
pub mod Ids
pub mod Time
pub mod Session
pub mod Kinds
pub mod Sync
pub mod Error
pub mod Keys
pub mod Authenticator
pub mod Login
