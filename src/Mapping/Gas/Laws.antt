-- ===== src/Mapping/Gas/Laws.antt =====
-- The checked gas arithmetic is exact or refused.
