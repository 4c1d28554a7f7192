-- ===== src/Grpc.antt =====
-- crates/heyl-grpc/src: how answers of the backend are read.
pub mod Status
pub mod Retry
pub mod Wire
pub mod Map
pub mod Request
pub mod Rpc
pub mod Adapter
