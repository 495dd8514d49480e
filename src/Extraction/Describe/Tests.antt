-- ===== src/Extraction/Describe/Tests.antt =====
-- The laws at concrete failures.
