-- ===== src/Status.antt =====
-- include/dLSM/status.h: the outcome of an operation, with its message where the code gives one.
use Prim.Native.String.{String}
use mathlib.Core.Bool.{Bool, true, false}

pub data Status : Type 0 where
  ok not_found : Status
  corruption io_error : String → Status

-- `ok()`
abbrev pub is_ok : Status → Bool
is_ok ok = true
is_ok _ = false
