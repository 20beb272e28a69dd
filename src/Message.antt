-- ===== src/Message.antt =====
-- internal/message: the preparation of a submitted message.
pub mod Normalize
pub mod Fields
pub mod Trace
pub mod Prepare
