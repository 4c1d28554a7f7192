-- ===== src/Vault.antt =====
-- The crate crates/heyl-vault: decrypted commit blobs, their merge, and the two schemas read out of
-- them.
pub mod Document
pub mod Merge
pub mod Meta
pub mod Login
