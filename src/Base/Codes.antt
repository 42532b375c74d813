-- ===== src/Base/Codes.antt =====
-- The return codes of include/tn/error.h, and the tests that its guard macros make on them.
use mathlib.Core.Bool.{Bool, true, false}
use Prim.Native.Nat.{ℕ}

-- `uv n` is an error code of libuv, the integer -(n + 1).
pub data Status : Type 0 where
  success error error_again error_nomem error_inval : Status
  queue_empty queue_full queue_again : Status
  event_error event_nochan event_nospan event_spanread : Status
  send_error send_noreq send_nobuf send_push : Status
  recv_error recv_ebuf recv_evtpop recv_evtpush recv_e2big : Status
  uv : ℕ → Status

-- `if (ret)`: only TN_SUCCESS is zero.
abbrev pub failed : Status → Bool
failed success = false
failed _ = true
