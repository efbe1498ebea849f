-- ===== src/Call.antt =====
-- src/call.rs: one unary call, from the method path to the decoded response.
pub mod Method
pub mod Metadata
pub mod Network
pub mod Codec
pub mod Messages
pub mod Async
pub mod Timed
pub mod Row
pub mod Tasks
