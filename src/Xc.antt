-- ===== src/Xc.antt =====
-- The cryptography of the kernel, nboxkrnl/xc.
pub mod Sha
