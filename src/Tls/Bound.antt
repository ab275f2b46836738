-- ===== src/Tls/Bound.antt =====
-- The walk over the extensions ends by itself.
