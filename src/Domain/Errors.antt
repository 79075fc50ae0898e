-- ===== src/Domain/Errors.antt =====
-- internal/domain/errors.go, and the errors of Go's context package that the code tests for.
-- `errors.Is` walks the chain that `fmt.Errorf` with `%w` builds.
use riskforge.Prelude.{ℕ, String, Bool, false, ◌==◌}

pub data Sentinel : Type 0 where
  err_circuit_open err_rate_limit_exceeded err_no_eligible_carriers : Sentinel
  err_carrier_timeout err_carrier_unavailable err_invalid_request : Sentinel
  canceled deadline_exceeded : Sentinel

abbrev pub sentinel_code : Sentinel → ℕ
sentinel_code err_circuit_open = 0
sentinel_code err_rate_limit_exceeded = 1
sentinel_code err_no_eligible_carriers = 2
sentinel_code err_carrier_timeout = 3
sentinel_code err_carrier_unavailable = 4
sentinel_code err_invalid_request = 5
sentinel_code canceled = 6
sentinel_code deadline_exceeded = 7

-- A sentinel, another error with its message, or an error wrapped under a message.
pub data Error : Type 0 where
  sentinel : Sentinel → Error
  other : String → Error
  wrap : String → Error → Error

unfoldable pub errors_is : Error → Sentinel → Bool
errors_is (sentinel s) target = sentinel_code s == sentinel_code target
errors_is (other _) target = false
errors_is (wrap _ e) target = errors_is e target
