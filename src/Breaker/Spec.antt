-- ===== src/Breaker/Spec.antt =====
-- What the doc comment of `Execute` in internal/circuitbreaker/breaker.go promises: a machine over
-- three kinds of state, with no slot, no log and no counter that the kind does not need.
use riskforge.Prelude.{ℕ, suc, ◌+◌, ◌<◌, ◌≡◌, Option, none, some, ltb, leb, if◌then◌else◌}
use riskforge.Prelude.Int.{pos_part}
use riskforge.Domain.Errors.{Error, sentinel, err_circuit_open}
use riskforge.Breaker.{CbState, state_closed, state_open, state_half_open, Breaker}

pub data View : Type 0 where
  closed : (failures : ℕ) → View
  tripped : (since : ℕ) → View
  probing : (successes : ℕ) → View

abbrev view_of : CbState → Breaker → View
view_of state_closed b = closed b.failures
view_of state_open b = tripped b.opened_at
view_of state_half_open b = probing b.successes

abbrev pub view : Breaker → View
view b = view_of b.state b

-- The thresholds and the timeout as natural numbers.
pub record Limits : Type 0 where
  pub failure_threshold : ℕ
  pub success_threshold : ℕ
  pub open_timeout : ℕ

abbrev pub limits : Breaker → Limits
limits b = record {
  failure_threshold = pos_part b.cfg.failure_threshold;
  success_threshold = pos_part b.cfg.success_threshold;
  open_timeout = pos_part b.cfg.open_timeout;
}

-- The state in which a call that starts at `now` is handled; none when it is short-circuited.
abbrev pub admit : Limits → View → ℕ → Option View
admit l (closed k) now = some (closed k)
admit l (probing k) now = some (probing k)
admit l (tripped since) now = if ltb now (since + l.open_timeout) then none else some (probing 0)

-- What the outcome of the call does; an opening is dated `stamp`.
abbrev pub settle : Limits → View → ℕ → Option Error → View
settle l (closed k) stamp none = closed 0
settle l (closed k) stamp (some e) =
    if leb l.failure_threshold (suc k) then tripped stamp else closed (suc k)
settle l (probing k) stamp none =
    if leb l.success_threshold (suc k) then closed 0 else probing (suc k)
settle l (probing k) stamp (some e) = tripped stamp
settle l (tripped since) stamp r = tripped since

-- The new state, the caller's state after `fn` if that is called, and the error returned.
abbrev pub spec_execute {ℓ} :
    {W : Type ℓ} → Limits → View → ℕ → ℕ → (W → W × Option Error) → W → View × W × Option Error
spec_execute l v now stamp fn w = elim (admit l v now) [
  | none ↦ (v, w, some (sentinel err_circuit_open))
  | some v' ↦ (settle l v' stamp (fn w).1, (fn w).0, (fn w).1)
]

abbrev pub Counts : CbState → Breaker → Type 0
Counts state_closed b = (b.failures < (limits b).failure_threshold) × (b.successes ≡ 0)
Counts state_open b = b.successes ≡ 0
Counts state_half_open b = b.successes < (limits b).success_threshold

-- Thresholds that are positive int32 values, a positive timeout, a free slot, and counters below
-- their thresholds.
pub record IsWellFormed (b : Breaker) : Type 0 where
  pub failure_pos : 0 < (limits b).failure_threshold
  pub failure_fits : (limits b).failure_threshold < 2147483648
  pub success_pos : 0 < (limits b).success_threshold
  pub success_fits : (limits b).success_threshold < 2147483648
  pub timeout_pos : 0 < (limits b).open_timeout
  pub free : b.half_open_in_flight ≡ 0
  pub counts : Counts b.state b
