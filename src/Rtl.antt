-- ===== src/Rtl.antt =====
-- The runtime library of the kernel, nboxkrnl/rtl.
pub mod Status
pub mod Divide
pub mod Numbers
pub mod Strings
pub mod Compare
pub mod Error
pub mod Time
