-- ===== src/Orchestrator/Status.antt =====
-- `classifyError` of internal/orchestrator/orchestrator.go.
use riskforge.Prelude.{◌≡◌, refl, String, ◌||◌, if◌then◌else◌}
use riskforge.Domain.Errors.{
  err_circuit_open, err_rate_limit_exceeded, err_carrier_timeout, deadline_exceeded, Error,
  sentinel, other, wrap, errors_is,
}

-- The labels are the texts that the source gives to the metrics.
unfoldable pub classify_error : Error → String
classify_error e =
    if errors_is e err_circuit_open
    then "circuit_open"
    else if errors_is e err_rate_limit_exceeded
    then "rate_limited"
    else if errors_is e deadline_exceeded || errors_is e err_carrier_timeout
    then "timeout"
    else "error"

-- The error at the end of the chain.
abbrev pub root : Error → Error
root (sentinel s) = sentinel s
root (other m) = other m
root (wrap m e) = root e

abbrev pub label : Error → String
label (sentinel err_circuit_open) = "circuit_open"
label (sentinel err_rate_limit_exceeded) = "rate_limited"
label (sentinel deadline_exceeded) = "timeout"
label (sentinel err_carrier_timeout) = "timeout"
label _ = "error"

-- The status depends on the error at the end of the chain of wrapped errors only, however often it is
-- wrapped: the circuit-open and rate-limit errors have labels of their own, the deadline and the
-- carrier timeout share one, and every other error has the last.
pub classify_error-label : (e : Error) → classify_error e ≡ label (root e)
unfolding classify_error errors_is
classify_error-label (sentinel err_circuit_open) = refl
classify_error-label (sentinel s) = refl
classify_error-label (other m) = refl
classify_error-label (wrap m e) = classify_error-label e
