-- ===== src/Breaker/Trace.antt =====
-- The calls that internal/circuitbreaker/breaker.go makes on its MetricsRecorder.
use riskforge.Prelude.{
  ℕ, ◌≡◌, refl, sym, ◌⊎◌, inl, inr, Bool-cases, ◌==◌, String, Bool, true, false, List, [], ◌∷◌,
  Option, none, some, arith,
}
use mathlib.Core.Path.{subst₃}
use riskforge.Domain.Errors.{Error}
use riskforge.Breaker.{
  CbState, cb_value, report, state_closed, state_open, state_half_open, Breaker, BreakerMetric,
  record_cb_transition, set_cb_state, Config, new, is_waiting, closed_after, half_open_after,
  execute_closed, execute_half_open, enter_half_open, execute_from, execute,
}
use riskforge.Breaker.History.{Call, run}

-- The transitions that the doc comment of `Execute` names.
abbrev pub allowed : CbState → CbState → Bool
allowed state_closed state_open = true
allowed state_open state_half_open = true
allowed state_half_open state_closed = true
allowed state_half_open state_open = true
allowed _ _ = false

-- A log, newest first, that begins with the gauge at closed and then has, for each transition from
-- the state before, the transition and the gauge at the new state; the last gauge is the index.
pub data IsTrace (c : String) : CbState → List BreakerMetric → Type 0 where
  seeded : IsTrace c state_closed (set_cb_state c state_closed ∷ [])
  moved :
      {from to : CbState} {log : List BreakerMetric}
      → allowed from to ≡ true
      → IsTrace c from log
      → IsTrace c to (set_cb_state c to ∷ record_cb_transition c from to ∷ log)

abbrev pub Traced : Breaker → Type 0
Traced b = IsTrace b.carrier_id b.state b.metrics

-- One of the two: no transition and no report, or an allowed transition and its report.
record Moves (b b' : Breaker) : Type 0 where
  same : b'.carrier_id ≡ b.carrier_id
  how :
      ((b'.state ≡ b.state) × (b'.metrics ≡ b.metrics))
      ⊎ ((allowed b.state b'.state ≡ true)
          × (b'.metrics
              ≡ set_cb_state b.carrier_id b'.state
                ∷ record_cb_transition b.carrier_id b.state b'.state
                ∷ b.metrics))

Moves-Traced : (b b' : Breaker) → Moves b b' → Traced b → Traced b'
Moves-Traced b b' m h = elim m.how [
  | inl (e, log) ↦ subst₃ IsTrace (sym m.same) (sym e) (sym log) h
  | inr (ok, log) ↦ subst₃ IsTrace (sym m.same) refl (sym log) (moved ok h)
]

closed_after-Moves : (b : Breaker) (stamp : ℕ) (r : Option Error) → Moves b (closed_after b stamp r)
unfolding closed_after
closed_after-Moves b stamp none = ground arith
closed_after-Moves b stamp (some e) = ground arith

half_open_after-Moves :
    (b : Breaker) (stamp : ℕ) (r : Option Error) → Moves b (half_open_after b stamp r)
unfolding half_open_after
half_open_after-Moves b stamp none = ground arith
half_open_after-Moves b stamp (some e) = ground arith

module _ {W : Type 0} (now stamp : ℕ) (fn : W → W × Option Error) (w : W) where
  execute_half_open-Moves : (b : Breaker) → Moves b (execute_half_open b stamp fn w).0
  unfolding execute_half_open
  execute_half_open-Moves b =
      ground (arith, half_open_after-Moves (record b { half_open_in_flight = 1 }) stamp (fn w).1)

  enter_half_open-Traced : (b : Breaker) → Traced b → Traced (enter_half_open b stamp fn w).0
  unfolding enter_half_open
  enter_half_open-Traced b h = elim (Bool-cases (cb_value b.state == cb_value state_open)) [
    | inl e ↦
        let b' = report state_open state_half_open (record b { state = state_half_open }) in
        let m : Moves b b' = ground arith in
        rw (e, enter_half_open)
          (Moves-Traced b' (execute_half_open b' stamp fn w).0 (execute_half_open-Moves b')
            (Moves-Traced b b' m h))
    | inr e ↦
        rw (e, enter_half_open)
          (Moves-Traced b (execute_half_open b stamp fn w).0 (execute_half_open-Moves b) h)
  ]

  execute_from-Traced :
      (s : CbState) (b : Breaker) → Traced b → Traced (execute_from s b now stamp fn w).0
  unfolding execute_from
  execute_from-Traced state_closed b h =
      Moves-Traced b (execute_closed b stamp fn w).0 (closed_after-Moves b stamp (fn w).1) h
  execute_from-Traced state_half_open b h =
      Moves-Traced b (execute_half_open b stamp fn w).0 (execute_half_open-Moves b) h
  execute_from-Traced state_open b h = elim (Bool-cases (is_waiting b now)) [
    | inl e ↦ rw e h
    | inr e ↦ rw e (enter_half_open-Traced b h)
  ]

-- Whatever the configuration and the calls, the log of a breaker that `New` made and that has served
-- calls one after another is a chain of allowed transitions from closed to the present state, each
-- followed by its gauge, so that the last gauge is the present state.
pub run-Traced :
    {W : Type 0} (cs : List (Call W)) (b : Breaker) (w : W) → Traced b → Traced (run b w cs).0
unfolding run execute
run-Traced [] b w h = h
run-Traced (c ∷ cs) b w h =
    run-Traced cs (execute b c.now c.stamp c.fn w).0 (execute b c.now c.stamp c.fn w).1
      (execute_from-Traced c.now c.stamp c.fn w b.state b h)

-- After `New` and any calls that do not overlap, the calls made on the recorder are a chain of allowed
-- transitions from closed to the present state, each followed by its gauge.
pub run-new-Traced :
    {W : Type 0} (carrier_id : String) (cfg : Config) (w : W) (cs : List (Call W))
    → Traced (run (new carrier_id cfg) w cs).0
unfolding new
run-new-Traced carrier_id cfg w cs = run-Traced cs (new carrier_id cfg) w seeded
