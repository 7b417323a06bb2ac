-- ===== src/Ex.antt =====
-- The executive, nboxkrnl/ex.
pub mod ReadWriteLock
