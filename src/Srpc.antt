-- ===== src/Srpc.antt =====
-- The streaming RPC of src/srpc.
pub mod Messages
pub mod ByteStream
pub mod Server
pub mod Client
pub mod Auth
