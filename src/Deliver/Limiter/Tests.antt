-- ===== src/Deliver/Limiter/Tests.antt =====
-- The slots of internal/deliver/limiter.go at a concrete run.
