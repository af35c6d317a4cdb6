-- ===== src/Brain/Startup/Looped.antt =====
-- `monitor` from its entry until a signal.
