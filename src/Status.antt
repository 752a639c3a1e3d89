-- ===== src/Status.antt =====
-- `kernel_status_t` of include/kernel/core/status.h.
use wig_osx.Base.{Bool, true, false}

pub data Status : Type 0 where
  ok : Status
  invalid_argument : Status
  not_ready : Status
  unavailable : Status
  malformed_data : Status
  out_of_memory : Status
  hardware_failure : Status
  already_initialized : Status

abbrev pub kernel_status_is_ok : Status → Bool
kernel_status_is_ok ok = true
kernel_status_is_ok _ = false
