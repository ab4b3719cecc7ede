-- ===== src/Imperium/Start/Advanced.antt =====
-- The second version of the start.
