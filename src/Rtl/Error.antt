-- ===== src/Rtl/Error.antt =====
-- nboxkrnl/rtl/error.cpp: the Win32 error code of a status.
pub mod Tables
pub mod LongTables
pub mod Lookup
pub mod Mapping
mod Examples
