-- ===== src/Breaker/Goroutines.antt =====
-- internal/circuitbreaker/breaker.go under concurrent calls: the goroutines run `Execute` on one
-- breaker, an atomic operation, a clock read or a call on the recorder at a time, in any order.
use riskforge.Prelude.{
  update, ℕ, ◌≡◌, List, [], ◌∷◌, Option, none, some, String, ◌==◌, if◌then◌else◌,
}
use riskforge.Prelude.Int.{to_i32, suc_i32, geb_i32}
use riskforge.Domain.Errors.{Error, sentinel, err_circuit_open}
use riskforge.Breaker.{
  CbState, cb_value, state_closed, state_open, state_half_open, Breaker, record_cb_transition,
  set_cb_state, Config, new, is_waiting,
}

-- What follows the report of a transition: the probe, the deferred store, or the return.
pub data After : Type 0 where
  to_probe : After
  leave : Option Error → After
  finish : Option Error → After

-- Where a goroutine stands, with the local values that are live there.
pub data Pc : Type 0 where
  idle : Pc  -- before `b.state.Load()` of `Execute`
  check_timeout : Pc  -- before `b.openedAt.Load()`
  swap_half : Pc  -- before CompareAndSwap(stateOpen, stateHalfOpen)
  reporting : (from to : CbState) → After → Pc  -- before RecordCBTransition
  gauging : (to : CbState) → After → Pc  -- before SetCBState
  probe_enter : Pc  -- before halfOpenInFlight.CompareAndSwap(0, 1)
  probe_call : Pc  -- `fn` runs in `executeHalfOpen`
  probe_reopen : Error → Pc  -- before CompareAndSwap(stateHalfOpen, stateOpen)
  probe_stamp : Error → Pc
  probe_clear : Error → Pc
  probe_count : Pc  -- before successes.Add(1)
  probe_close : Pc  -- before CompareAndSwap(stateHalfOpen, stateClosed)
  probe_zero_failures : Pc
  probe_zero_successes : Pc
  leaving : Option Error → Pc  -- before the deferred halfOpenInFlight.Store(0)
  closed_call : Pc  -- `fn` runs in `executeClosed`
  closed_count : Error → Pc  -- before failures.Add(1)
  closed_trip : Error → Pc  -- before CompareAndSwap(stateClosed, stateOpen)
  closed_stamp : Error → Pc
  closed_reset : Pc  -- before failures.Store(0)
  returned : Option Error → Pc

abbrev pub dispatch : CbState → Pc
dispatch state_open = check_timeout
dispatch state_half_open = probe_enter
dispatch state_closed = closed_call

abbrev resume : After → Pc
resume to_probe = probe_enter
resume (leave r) = leaving r
resume (finish r) = returned r

abbrev fn_closed : Option Error → Pc
fn_closed none = closed_reset
fn_closed (some e) = closed_count e

abbrev fn_probe : Option Error → Pc
fn_probe none = probe_count
fn_probe (some e) = probe_reopen e

abbrev busy : Pc
busy = returned (some (sentinel err_circuit_open))

-- A CompareAndSwap of the state, and where the goroutine goes when it wins and when it loses.
abbrev try_swap : CbState → CbState → Breaker → Pc → Pc → Breaker × Pc
try_swap from to b won lost =
    if cb_value b.state == cb_value from then (record b { state = to }, won) else (b, lost)

-- One operation of a goroutine. `now` is the clock if the operation reads it, `result` what `fn`
-- returns if the operation is the end of `fn`.
unfoldable pub advance : ℕ → Option Error → Pc → Breaker → Breaker × Pc
advance now result idle b = (b, dispatch b.state)
advance now result check_timeout b = if is_waiting b now then (b, busy) else (b, swap_half)
advance now result swap_half b =
    try_swap state_open state_half_open b (reporting state_open state_half_open to_probe)
      probe_enter
advance now result (reporting from to k) b =
    (record b { metrics = record_cb_transition b.carrier_id from to ∷ b.metrics }, gauging to k)
advance now result (gauging to k) b =
    (record b { metrics = set_cb_state b.carrier_id to ∷ b.metrics }, resume k)
advance now result probe_enter b =
    if b.half_open_in_flight == 0
    then (record b { half_open_in_flight = 1 }, probe_call)
    else (b, busy)
advance now result probe_call b = (b, fn_probe result)
advance now result (probe_reopen e) b =
    try_swap state_half_open state_open b (probe_stamp e) (leaving (some e))
advance now result (probe_stamp e) b = (record b { opened_at = now }, probe_clear e)
advance now result (probe_clear e) b =
    (record b { successes = 0 }, reporting state_half_open state_open (leave (some e)))
advance now result probe_count b = (
  record b { successes = suc_i32 b.successes },
  if geb_i32 (suc_i32 b.successes) (to_i32 b.cfg.success_threshold)
      then probe_close
      else leaving none,
)
advance now result probe_close b =
    try_swap state_half_open state_closed b probe_zero_failures (leaving none)
advance now result probe_zero_failures b = (record b { failures = 0 }, probe_zero_successes)
advance now result probe_zero_successes b =
    (record b { successes = 0 }, reporting state_half_open state_closed (leave none))
advance now result (leaving r) b = (record b { half_open_in_flight = 0 }, returned r)
advance now result closed_call b = (b, fn_closed result)
advance now result (closed_count e) b = (
  record b { failures = suc_i32 b.failures },
  if geb_i32 (suc_i32 b.failures) (to_i32 b.cfg.failure_threshold)
      then closed_trip e
      else returned (some e),
)
advance now result (closed_trip e) b =
    try_swap state_closed state_open b (closed_stamp e) (returned (some e))
advance now result (closed_stamp e) b =
    (record b { opened_at = now }, reporting state_closed state_open (finish (some e)))
advance now result closed_reset b = (record b { failures = 0 }, returned none)
advance now result (returned r) b = (b, returned r)

pub record System : Type 0 where
  pub mem : Breaker
  pub pc : ℕ → Pc

-- Goroutine `i` makes one operation, at any clock value and with any result of `fn`; a goroutine
-- that has returned may call `Execute` again.
abbrev pub turn : System → ℕ → ℕ → Option Error → System
turn s i now result = record {
  mem = (advance now result (s.pc i) s.mem).0;
  pc = update s.pc i (advance now result (s.pc i) s.mem).1;
}

pub data Step (s : System) : System → Type 0 where
  operate : (i now : ℕ) (result : Option Error) → Step s (turn s i now result)
  again :
      (i : ℕ) (r : Option Error)
      → s.pc i ≡ returned r
      → Step s (record s { pc = update s.pc i idle })

pub data Reach (s : System) : System → Type 0 where
  here : Reach s s
  next : {t u : System} → Reach s t → Step t u → Reach s u

abbrev pub init : String → Config → System
init carrier_id cfg = record { mem = new carrier_id cfg; pc = λ _. idle }

-- A given order of the operations: who moves, at what time, and with what result of `fn`.
unfoldable pub schedule : System → List (ℕ × ℕ × Option Error) → System
schedule s [] = s
schedule s ((i, now, result) ∷ ops) = schedule (turn s i now result) ops

pub schedule-Reach :
    (ops : List (ℕ × ℕ × Option Error)) (s t : System) → Reach s t → Reach s (schedule t ops)
unfolding schedule
schedule-Reach [] s t r = r
schedule-Reach ((i, now, result) ∷ ops) s t r =
    schedule-Reach ops s (turn t i now result) (next r (operate i now result))
