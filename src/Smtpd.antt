-- ===== src/Smtpd.antt =====
-- internal/smtpd: the submission server.
pub mod AuthLimiter
pub mod ConnLimit
pub mod Variants
pub mod Session
pub mod Submission
pub mod Tracker
pub mod Login
pub mod Authentication
pub mod AuthDeadline
