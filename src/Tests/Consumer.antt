-- ===== src/Tests/Consumer.antt =====
-- A start of the handler.
