-- ===== src/Rtl/Status.antt =====
-- The NTSTATUS values that the modelled routines of nboxkrnl/rtl return (nboxkrnl/ntstatus.hpp).
pub data Status : Type 0 where
  success invalid_parameter access_violation buffer_overflow buffer_too_small no_memory : Status
