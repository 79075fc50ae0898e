-- ===== src/Metrics/Tests.antt =====
-- The exported state of a breaker that three calls have opened and closed again.
use riskforge.Prelude.{ℕ, ◌+◌, ◌≡◌, [], ◌∷◌, none, some, read, All}
use riskforge.Prelude.Int.{pos}
use riskforge.Domain.Errors.{other}
use riskforge.Breaker.{state_closed, state_open, cb_value, Config, new}
use riskforge.Breaker
use riskforge.Breaker.History.{Call, run}
use riskforge.Metrics.{PrometheusRecorder, empty_recorder, receive_all, IsTransition, gauge-run}

abbrev quick : Config
quick = record { failure_threshold = pos 1; success_threshold = pos 1; open_timeout = pos 30 }

abbrev failing : ℕ → Call ℕ
failing t = record { now = t; stamp = t + 1; fn = λ n. (n + 1, some (other "down")) }

abbrev working : ℕ → Call ℕ
working t = record { now = t; stamp = t + 1; fn = λ n. (n + 1, none) }

abbrev tripped : Breaker.Breaker
tripped = (run (new "alpha" quick) 0 (failing 1 ∷ working 9 ∷ working 40 ∷ [])).0

abbrev exported : PrometheusRecorder ℕ
exported = receive_all tripped.metrics empty_recorder

gauge-run_example :
    (read exported.cb_state_gauge tripped.carrier_id ≡ some (cb_value tripped.state))
    × All (IsTransition tripped.carrier_id) exported.cb_transitions_total
gauge-run_example = gauge-run ℕ "alpha" quick 0 (failing 1 ∷ working 9 ∷ working 40 ∷ [])
