-- ===== src/Breaker.antt =====
-- internal/circuitbreaker/breaker.go, and the CbState of internal/ports/metrics_port.go.
-- The atomics are the fields of `Breaker`: an atomic.Int32 counter is its bit pattern, the state is
-- an enum (only the three constants are ever stored). `metrics` lists the calls made on the
-- MetricsRecorder, the newest first. The clock is read twice at most in one call: `now` at the
-- timeout test and `stamp` where the circuit is opened. `fn` acts on a state `W` of its own.
pub mod Spec
pub mod Refinement
pub mod History
pub mod Trace
pub mod Goroutines
pub mod Slot
pub mod Solo
pub mod Race
mod Tests
use riskforge.Prelude.{ℕ, String, Bool, List, [], ◌∷◌, Option, none, some, ◌==◌, if◌then◌else◌}
use riskforge.Prelude.Int.{ℤ, pos, ltb_ℤ, leb_ℤ, sub_ℕ, to_i32, suc_i32, geb_i32}
use riskforge.Domain.Errors.{Error, sentinel, err_circuit_open}

pub data CbState : Type 0 where
  state_closed state_open state_half_open : CbState

-- The numeric value of a state, which is also its gauge value.
abbrev pub cb_value : CbState → ℕ
cb_value state_closed = 0
cb_value state_open = 1
cb_value state_half_open = 2

pub data BreakerMetric : Type 0 where
  record_cb_transition : String → CbState → CbState → BreakerMetric
  set_cb_state : String → CbState → BreakerMetric

pub record Config : Type 0 where
  pub failure_threshold : ℤ
  pub success_threshold : ℤ
  pub open_timeout : ℤ

pub record Breaker : Type 0 where
  pub carrier_id : String
  pub cfg : Config
  pub metrics : List BreakerMetric
  pub state : CbState
  pub failures : ℕ
  pub successes : ℕ
  pub half_open_in_flight : ℕ
  pub opened_at : ℕ

abbrev pub default_failure_threshold : ℤ
default_failure_threshold = pos 5

abbrev pub default_open_timeout : ℤ
default_open_timeout = pos 30_000_000_000

-- `x <= 0`, and then the default.
abbrev or_default : ℤ → ℤ → ℤ
or_default x d = if leb_ℤ x (pos 0) then d else x

unfoldable pub with_defaults : Config → Config
with_defaults c = record {
  failure_threshold = or_default c.failure_threshold default_failure_threshold;
  success_threshold = or_default c.success_threshold (pos 1);
  open_timeout = or_default c.open_timeout default_open_timeout;
}

unfoldable pub new : String → Config → Breaker
unfolding with_defaults
new carrier_id c = record {
  carrier_id = carrier_id;
  cfg = with_defaults c;
  metrics = set_cb_state carrier_id state_closed ∷ [];
  state = state_closed;
  failures = 0;
  successes = 0;
  half_open_in_flight = 0;
  opened_at = 0;
}

-- `state.CompareAndSwap(from, to)`: the new breaker, or none when the state is not `from`.
abbrev pub swap_state : CbState → CbState → Breaker → Option Breaker
swap_state from to b =
    if cb_value b.state == cb_value from then some (record b { state = to }) else none

-- RecordCBTransition and SetCBState after a transition.
abbrev pub report : CbState → CbState → Breaker → Breaker
report from to b = record b {
  metrics = set_cb_state b.carrier_id to ∷ record_cb_transition b.carrier_id from to ∷ b.metrics;
}

-- `executeClosed` after `fn` has returned.
unfoldable pub closed_after : Breaker → ℕ → Option Error → Breaker
closed_after b stamp none = record b { failures = 0 }
closed_after b stamp (some e) =
    let counted : Breaker = record b { failures = suc_i32 b.failures } in
    if geb_i32 counted.failures (to_i32 b.cfg.failure_threshold)
    then elim (swap_state state_closed state_open counted) [
      | some opened ↦ report state_closed state_open (record opened { opened_at = stamp })
      | none ↦ counted
    ]
    else counted

-- `executeHalfOpen` after `fn` has returned, up to the deferred store.
unfoldable pub half_open_after : Breaker → ℕ → Option Error → Breaker
half_open_after b stamp (some e) = elim (swap_state state_half_open state_open b) [
  | some opened ↦
      report state_half_open state_open (record opened { opened_at = stamp; successes = 0 })
  | none ↦ b
]
half_open_after b stamp none =
    let counted : Breaker = record b { successes = suc_i32 b.successes } in
    if geb_i32 counted.successes (to_i32 b.cfg.success_threshold)
    then elim (swap_state state_half_open state_closed counted) [
      | some shut ↦
          report state_half_open state_closed (record shut { failures = 0; successes = 0 })
      | none ↦ counted
    ]
    else counted

-- `time.Since(openedAt) < OpenTimeout`.
unfoldable pub is_waiting : Breaker → ℕ → Bool
is_waiting b now = ltb_ℤ (sub_ℕ now b.opened_at) b.cfg.open_timeout

module _ {W : Type 0} where
  unfoldable pub execute_closed :
      Breaker → ℕ → (W → W × Option Error) → W → Breaker × W × Option Error
  unfolding closed_after
  execute_closed b stamp fn w = let (w', result) = fn w in (closed_after b stamp result, w', result)

  -- The slot is taken by CompareAndSwap(0, 1) and freed by the deferred store.
  unfoldable pub execute_half_open :
      Breaker → ℕ → (W → W × Option Error) → W → Breaker × W × Option Error
  unfolding half_open_after
  execute_half_open b stamp fn w =
      if b.half_open_in_flight == 0
      then (let (w', result) = fn w in
          let after = half_open_after (record b { half_open_in_flight = 1 }) stamp result in
          (record after { half_open_in_flight = 0 }, w', result))
      else (b, w, some (sentinel err_circuit_open))

  -- `executeHalfOpen` after the attempt to leave Open, whether or not the swap is won.
  unfoldable pub enter_half_open :
      Breaker → ℕ → (W → W × Option Error) → W → Breaker × W × Option Error
  unfolding execute_half_open
  enter_half_open b stamp fn w = elim (swap_state state_open state_half_open b) [
    | some probing ↦ execute_half_open (report state_open state_half_open probing) stamp fn w
    | none ↦ execute_half_open b stamp fn w
  ]

  execute_from : CbState → Breaker → ℕ → ℕ → (W → W × Option Error) → W → Breaker × W × Option Error
  unfolding execute_closed enter_half_open is_waiting
  execute_from state_open b now stamp fn w =
      if is_waiting b now
      then (b, w, some (sentinel err_circuit_open))
      else enter_half_open b stamp fn w
  execute_from state_half_open b now stamp fn w = execute_half_open b stamp fn w
  execute_from state_closed b now stamp fn w = execute_closed b stamp fn w

  unfoldable pub execute : Breaker → ℕ → ℕ → (W → W × Option Error) → W → Breaker × W × Option Error
  unfolding execute_from
  execute b now stamp fn w = execute_from b.state b now stamp fn w
