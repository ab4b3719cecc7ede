-- ===== src/Core/Panic/Halt/Assert.antt =====
-- `KASSERT` of coresystem.c: what a checked condition leads to.
