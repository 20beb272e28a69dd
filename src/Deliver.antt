-- ===== src/Deliver.antt =====
-- The delivery side, internal/deliver: one module for each part of an attempt.
pub mod Limiter
pub mod Domain
pub mod Outcome
pub mod Parking
pub mod Selection
pub mod Response
pub mod Discovery
pub mod Connect
pub mod Diagnostic
pub mod Send
mod Samples
