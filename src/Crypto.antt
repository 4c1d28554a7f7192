-- ===== src/Crypto.antt =====
-- The crate crates/heyl-crypto, as far as it is more than calls of cryptographic crates.
pub mod Recovery
pub mod Boxes
