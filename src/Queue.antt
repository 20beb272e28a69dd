-- ===== src/Queue.antt =====
-- internal/queue: the durable spool of outbound messages.
pub mod Ids
pub mod Validation
pub mod Envelope
pub mod State
pub mod Capacity
pub mod Identity
pub mod Schedule
pub mod Transitions
pub mod Spool
pub mod Samples
