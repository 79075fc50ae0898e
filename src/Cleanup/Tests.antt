-- ===== src/Cleanup/Tests.antt =====
-- The theorems on the cleanup at concrete runs.
use riskforge.Prelude.{
  ℕ, ◌+◌, ◌≡◌, ◌≤◌, ◌⊎◌, ◌≢◌, inr, refl, true, false, [], ◌∷◌, this, arith, total,
}
use riskforge.Domain.Errors.{Error}
use riskforge.Cleanup.{
  finished, selecting, not_started, waiting, stopped, Ticker, new, starts, ticks, loop_stops,
  sweeps_once, stop_called, closes_stop, stop_returns, TickerSteps, none_yet, step,
}
use riskforge.Cleanup.Stopping.{returned, CanReturn, stop_is_final, stop-CanReturn}

-- Each sweep deletes one row of so many.
abbrev delete_one : ℕ → ℕ × (Error ⊎ ℕ)
delete_one n = (n + 1, inr 1)

abbrev asked : Ticker ℕ
asked = record {
  loop = selecting;
  stoppers = waiting ∷ [];
  once = true;
  closes = 1;
  cancelled = false;
  sweeps = 1;
  world = 1;
}

abbrev over : Ticker ℕ
over = record asked { loop = finished; stoppers = stopped ∷ [] }

-- One sweep, and then a call of `Stop`.
sweep_and_ask : TickerSteps delete_one (new 0) 5 asked
sweep_and_ask =
    step
      (step (step (step (step none_yet (starts refl)) (ticks refl)) (sweeps_once refl)) stop_called)
      (closes_stop this refl)

sweep_and_stop : TickerSteps delete_one (new 0) 7 over
sweep_and_stop = step (step sweep_and_ask (loop_stops refl (omega arith))) (stop_returns this refl)

stop_is_final_example : (over.loop ≡ finished) × (over.sweeps ≡ 1) × (over.closes ≤ 1)
stop_is_final_example =
    stop_is_final delete_one 0 7 0 over over sweep_and_stop (omega arith) none_yet

stop-CanReturn_example :
    ((asked.loop ≡ not_started) × (total returned asked.stoppers ≡ 0))
    ⊎ ((asked.loop ≢ not_started) × CanReturn delete_one asked (stopped ∷ []))
stop-CanReturn_example = stop-CanReturn delete_one 0 5 asked (stopped ∷ []) sweep_and_ask this
