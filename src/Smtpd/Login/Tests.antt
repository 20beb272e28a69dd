-- ===== src/Smtpd/Login/Tests.antt =====
-- The login machine of internal/smtpd/login.go at a concrete conversation.
