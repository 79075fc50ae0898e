-- ===== src/Breaker/Refinement.antt =====
-- The code of internal/circuitbreaker/breaker.go against the machine of Breaker/Spec.antt, for calls
-- that do not overlap.
use riskforge.Prelude.{ℕ, ◌≡◌, Option, none, some, arith}
use riskforge.Domain.Errors.{Error}
use riskforge.Breaker.{
  state_closed, state_half_open, Breaker, closed_after, half_open_after, execute,
}
use riskforge.Breaker.Spec.{View, view, limits, settle, spec_execute, IsWellFormed}

closed_after-settle :
    (b : Breaker) (stamp : ℕ) (r : Option Error)
    → IsWellFormed b
    → b.state ≡ state_closed
    → (view (closed_after b stamp r) ≡ settle (limits b) (view b) stamp r)
unfolding closed_after
closed_after-settle b stamp none v e = ground arith
closed_after-settle b stamp (some x) v e = ground arith

closed_after-IsWellFormed :
    (b : Breaker) (stamp : ℕ) (r : Option Error)
    → IsWellFormed b
    → b.state ≡ state_closed
    → IsWellFormed (closed_after b stamp r)
unfolding closed_after
closed_after-IsWellFormed b stamp none v e = ground arith
closed_after-IsWellFormed b stamp (some x) v e = ground arith

-- What the probe's end does to the view, and that the result is well formed once the slot is freed.
half_open_after-settle :
    (b : Breaker) (stamp : ℕ) (r : Option Error)
    → IsWellFormed b
    → b.state ≡ state_half_open
    → (view (half_open_after b stamp r) ≡ settle (limits b) (view b) stamp r)
      × IsWellFormed (record (half_open_after b stamp r) { half_open_in_flight = 0 })
unfolding half_open_after
half_open_after-settle b stamp none v e = ground arith
half_open_after-settle b stamp (some x) v e = ground arith

abbrev pub outcome : {W : Type 0} → Breaker × W × Option Error → View × W × Option Error
outcome (b, w, r) = (view b, w, r)

module _ {W : Type 0} (b : Breaker) (now stamp : ℕ) (fn : W → W × Option Error) (w : W) where
  -- Calls that do not overlap: on a well-formed breaker `Execute` answers as the machine does, calls
  -- `fn` exactly when the machine admits the call, and leaves a well-formed breaker.
  pub execute-spec_execute :
      IsWellFormed b
      → (outcome (execute b now stamp fn w) ≡ spec_execute (limits b) (view b) now stamp fn w)
        × IsWellFormed (execute b now stamp fn w).0
  unfolding execute
  execute-spec_execute v = ground arith
