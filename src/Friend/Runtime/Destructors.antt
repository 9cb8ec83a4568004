-- ===== src/Friend/Runtime/Destructors.antt =====
-- When the destructors run.
