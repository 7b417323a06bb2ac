-- ===== src/Mm.antt =====
-- The memory manager, nboxkrnl/mm.
pub mod Vad
