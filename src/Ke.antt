-- ===== src/Ke.antt =====
-- The kernel core, nboxkrnl/ke.
pub mod DeviceQueue
pub mod Dpc
pub mod Dispatcher
