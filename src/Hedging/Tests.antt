-- ===== src/Hedging/Tests.antt =====
-- The theorems on hedging at concrete inputs, with floats that are the natural numbers.
use riskforge.Prelude.{
  ℕ, ◌≡◌, refl, ◌+◌, ◌-◌, ◌*◌, ◌/◌, true, String, List, [], ◌∷◌, some, arith, ltb, leb, ◌==◌,
  length, if◌then◌else◌,
}
use riskforge.Prelude.Int.{ℤ, pos, ltb_ℤ, pos_part, milliseconds}
use riskforge.Prelude.Float.{Float, FloatOrder}
use riskforge.Domain.{CarrierConfig}
use riskforge.Breaker.{CbState, state_closed, state_half_open, state_open}
use riskforge.Hedging.Candidate.{
  HedgeCarrier, IsBest, select_hedge_candidate, select_hedge_candidate-IsBest,
}
use riskforge.Hedging.Tracker.{
  new_ema_tracker, record_all, record_latency, hedge_threshold, average,
  hedge_threshold-new_ema_tracker,
}
use riskforge.Hedging.Tracker.{EmaTracker}
use riskforge.Prelude.{Bool, false, map, All, ◌⊎◌, read, write}
use riskforge.Hedging.Record.{
  Recorders, record_turns, idle_recorders, advance_record, count, won, record_turns-record_all,
}
use riskforge.Hedging.Monitor.{
  PendingCarrier, MonitorState, hedge_monitor, monitor_start, OneEach, IsJustified, AllHedged,
  hedge_monitor-IsJustified,
}

abbrev order : FloatOrder ℕ
order = record {
  lt = ltb;
  same = ◌==◌;
  lt_irrefl = λ a. ground arith;
  lt_trans = λ a b c h k. ground arith;
  same_lt = λ a b c h k. ground arith;
  lt_same = λ a b c h k. ground arith;
  same_trans = λ a b c h k. ground arith;
}

abbrev config : ℕ → CarrierConfig ℕ
config priority = record {
  timeout_hint = pos 0;
  open_timeout = pos 0;
  failure_threshold = pos 5;
  success_threshold = pos 2;
  hedge_multiplier = 3;
  ema_alpha = 0;
  ema_window_size = pos 0;
  ema_warmup_observations = pos 2;
  rate_limit = record { tokens_per_second = 10; burst = pos 5 };
  priority = pos priority;
}

abbrev hedge : String → ℕ → ℕ → CbState → HedgeCarrier ℕ
hedge id p95 priority s = record {
  carrier = record {
    id = id;
    code = id;
    name = id;
    is_active = true;
    capabilities = "auto" ∷ [];
    config = config priority;
  };
  p95_ms = p95;
  cb_state = s;
}

abbrev eligible : List (HedgeCarrier ℕ)
eligible =
    hedge "alpha" 10 1 state_closed
    ∷ hedge "beta" 80 3 state_closed
    ∷ hedge "gamma" 20 1 state_open
    ∷ hedge "delta" 80 2 state_half_open
    ∷ []

-- Alpha is the slow carrier and gamma is Open; delta and beta differ in priority.
chosen : select_hedge_candidate order "alpha" eligible ≡ some (hedge "delta" 80 2 state_half_open)
unfolding select_hedge_candidate
chosen = refl

select_hedge_candidate-IsBest_example :
    IsBest order "alpha" eligible (select_hedge_candidate order "alpha" eligible)
select_hedge_candidate-IsBest_example = select_hedge_candidate-IsBest order "alpha" eligible

abbrev naturals : Float
naturals = record {
  F = ℕ;
  le = leb;
  add = ◌+◌;
  sub = ◌-◌;
  mul = ◌*◌;
  div = ◌/◌;
  of_int = pos_part;
  tenth = 0;
  max_float = 1_000_000_000;
}

abbrev seed : ℤ
seed = pos 50_000_000

-- After one of the two latencies of the warm-up no hedge can fire; after both the threshold is the
-- average times the multiplier.
thresholds :
    (hedge_threshold naturals (
        record_all naturals (pos 9_000_000 ∷ []) (new_ema_tracker naturals "alpha" seed (config 1)))
      ≡ 1_000_000_000)
    × (hedge_threshold naturals (
          record_all naturals
            (pos 9_000_000 ∷ pos 7_000_000 ∷ [])
            (new_ema_tracker naturals "alpha" seed (config 1)))
        ≡ 300)
unfolding hedge_threshold record_latency new_ema_tracker
thresholds = (refl, refl)

hedge_threshold-new_ema_tracker_example :
    (let t = new_ema_tracker naturals "alpha" seed (config 1) in
      hedge_threshold naturals (record_all naturals (pos 9_000_000 ∷ pos 7_000_000 ∷ []) t) ≡ (
        if ltb_ℤ (pos (length {A = ℤ} (pos 9_000_000 ∷ pos 7_000_000 ∷ []))) (pos 2)
        then 1_000_000_000
        else average naturals t.alpha
            (pos_part (milliseconds seed) * 2)
            (pos 9_000_000 ∷ pos 7_000_000 ∷ [])
          * 3))
hedge_threshold-new_ema_tracker_example =
    hedge_threshold-new_ema_tracker naturals "alpha" seed (config 1)
      (pos 9_000_000 ∷ pos 7_000_000 ∷ [])

abbrev tracker : EmaTracker naturals
tracker = record {
  carrier_id = "alpha";
  alpha = 0;
  multiplier = 3;
  warmup = pos 2;
  state = record { p95 = 100; observations = 0 };
  gauge = [];
}

-- Both goroutines load the same state, the second one swaps first, and the first has to try again.
abbrev interleaved : Recorders naturals
interleaved =
    record_turns naturals 0 (λ i. pos 1_000_000) (0 ∷ 1 ∷ 1 ∷ 0 ∷ 0 ∷ 0 ∷ [])
      (idle_recorders naturals tracker)

interleaved_order : interleaved.memory.order ≡ 1 ∷ 0 ∷ []
unfolding advance_record
interleaved_order = refl

record_turns-record_all_example :
    (interleaved.memory.cell interleaved.memory.current
      ≡ (record_all naturals
          (map (λ (i : ℕ). pos 1_000_000) interleaved.memory.order)
          tracker).state)
    × ((i : ℕ) → count i interleaved.memory.order ≡ won naturals (interleaved.pc i))
record_turns-record_all_example =
    record_turns-record_all naturals tracker (λ i. pos 1_000_000) (0 ∷ 1 ∷ 1 ∷ 0 ∷ 0 ∷ 0 ∷ [])

abbrev pending : List (PendingCarrier ℕ)
pending =
    record { carrier_id = "alpha"; start_time = 0; hedge_threshold = 30 }
    ∷ record { carrier_id = "beta"; start_time = 0; hedge_threshold = 90 }
    ∷ []

-- The world counts the tokens that are left.
abbrev acquire : HedgeCarrier ℕ → ℕ → ℕ × Bool
acquire c n = (n - 1, ltb 0 n)

abbrev idle : ℕ → ℕ → ℕ
idle now n = n

-- Every tick visits the pending carriers in the same order.
abbrev range : ℕ → List (PendingCarrier ℕ)
range now = pending

abbrev ticks : List ℕ
ticks = 20_000_000 ∷ 40_000_000 ∷ 60_000_000 ∷ []

abbrev watched : MonitorState ℕ ℕ
watched =
    hedge_monitor naturals order (λ n. eligible) acquire idle ticks range
      (monitor_start naturals order (λ n. eligible) acquire idle 5)

watched_fired : length watched.fired ≡ 1
unfolding hedge_monitor read write select_hedge_candidate
watched_fired = refl

hedge_monitor-IsJustified_example :
    OneEach naturals order (λ n. eligible) acquire idle watched.fired
    × All (IsJustified naturals order (λ n. eligible) acquire idle) watched.fired
    × ((watched.all_resolved ≡ false)
        ⊎ AllHedged naturals order (λ n. eligible) acquire idle pending watched)
hedge_monitor-IsJustified_example =
    hedge_monitor-IsJustified naturals order (λ n. eligible) acquire idle pending range
      (λ now p m. m) ticks 5
