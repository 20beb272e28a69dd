-- ===== src/Config.antt =====
-- internal/config: who may send, and which configured domain signs.
pub mod Senders
pub mod Domains
