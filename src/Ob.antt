-- ===== src/Ob.antt =====
-- The object manager, nboxkrnl/ob.
pub mod Handles
pub mod Names
pub mod Directory
