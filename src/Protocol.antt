-- ===== src/Protocol.antt =====
-- protocol/: the two Thrift encodings.
pub mod Outcome
pub mod Value
pub mod Varint
pub mod Containers
pub mod Compact
pub mod Binary
pub mod Kept
