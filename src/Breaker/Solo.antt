-- ===== src/Breaker/Solo.antt =====
-- A goroutine that runs alone: the operations of Breaker/Goroutines.antt one after another come to
-- what `execute` of Breaker.antt computes.
use riskforge.Prelude.{
  ℕ, zero, suc, ◌≡◌, refl, Option, none, some, arith, ◌∙◌, Bool, true, false, ◌==◌, Bool-cases, inl,
  inr,
}
use riskforge.Prelude.Int.{geb_i32, suc_i32, to_i32}
use riskforge.Domain.Errors.{Error, sentinel, err_circuit_open}
use riskforge.Breaker.{
  CbState, cb_value, report, is_waiting, state_closed, state_open, state_half_open, Breaker,
  closed_after, half_open_after, execute_half_open, enter_half_open, execute_from, execute,
}
use riskforge.Breaker.Goroutines.{
  Pc, dispatch, idle, check_timeout, swap_half, probe_enter, probe_call, closed_call, returned,
  advance,
}

-- The clock at the timeout test is `now`, and `stamp` at every other operation.
abbrev clock : ℕ → ℕ → Pc → ℕ
clock now stamp check_timeout = now
clock now stamp _ = stamp

pub solo : ℕ → ℕ → ℕ → Option Error → Breaker × Pc → Breaker × Pc
solo zero now stamp result (b, p) = (b, p)
solo (suc n) now stamp result (b, p) =
    solo n now stamp result (advance (clock now stamp p) result p b)

returned-solo :
    (n now stamp : ℕ) (b : Breaker) (r q : Option Error)
    → solo n now stamp r (b, returned q) ≡ (b, returned q)
unfolding solo advance
returned-solo zero now stamp b r q = refl
returned-solo (suc n) now stamp b r q = returned-solo n now stamp b r q

-- The operations with a test, once the test is known; `m` operations are left.
module _ (now stamp m : ℕ) where
  probe_enter-free :
      (b : Breaker) (r : Option Error)
      → (b.half_open_in_flight == 0) ≡ true
      → solo (suc m) now stamp r (b, probe_enter)
        ≡ solo m now stamp r (record b { half_open_in_flight = 1 }, probe_call)
  unfolding solo advance
  probe_enter-free b r h = rw h refl

  timeout-waiting :
      (b : Breaker) (r : Option Error)
      → is_waiting b now ≡ true
      → solo (suc m) now stamp r (b, check_timeout)
        ≡ solo m now stamp r (b, returned (some (sentinel err_circuit_open)))
  unfolding solo advance
  timeout-waiting b r h = rw h refl

  timeout-over :
      (b : Breaker) (r : Option Error)
      → is_waiting b now ≡ false
      → solo (suc m) now stamp r (b, check_timeout) ≡ solo m now stamp r (b, swap_half)
  unfolding solo advance
  timeout-over b r h = rw h refl

  -- Winning the swap from Open, up to the slot.
  swap_half-solo :
      (b : Breaker) (r : Option Error)
      → (cb_value b.state == cb_value state_open) ≡ true
      → solo (suc (suc (suc m))) now stamp r (b, swap_half)
        ≡ solo m now stamp r
            (report state_open state_half_open (record b { state = state_half_open }), probe_enter)
  unfolding solo advance
  swap_half-solo b r h = rw h refl

  swap_half-lost :
      (b : Breaker) (r : Option Error)
      → (cb_value b.state == cb_value state_open) ≡ false
      → solo (suc m) now stamp r (b, swap_half) ≡ solo m now stamp r (b, probe_enter)
  unfolding solo advance
  swap_half-lost b r h = rw h refl

-- A goroutine that is about to call `fn` in the slot returns with the slot freed.
abbrev Probed : ℕ → ℕ → ℕ → Breaker → Option Error → Type 0
Probed now stamp n b r =
    solo (suc (suc (suc (suc (suc (suc (suc (suc n)))))))) now stamp r (b, probe_call)
    ≡ solo n now stamp r
        (record (half_open_after b stamp r) { half_open_in_flight = 0 }, returned r)

module _ (now stamp n : ℕ) where
  closed_call-solo :
      (b : Breaker) (r : Option Error)
      → solo (suc (suc (suc (suc (suc (suc n)))))) now stamp r (b, closed_call)
        ≡ solo n now stamp r (closed_after b stamp r, returned r)
  unfolding solo advance closed_after
  closed_call-solo b none = ground arith
  closed_call-solo b (some e) = ground arith

  -- The probe from the return of `fn` to the return of `Execute`, when its success is too few.
  probe_success_short :
      (b : Breaker)
      → geb_i32 (suc_i32 b.successes) (to_i32 b.cfg.success_threshold) ≡ false
      → Probed now stamp n b none
  unfolding solo advance half_open_after
  probe_success_short b h = rw h refl

  probe_success_closes :
      (b : Breaker)
      → geb_i32 (suc_i32 b.successes) (to_i32 b.cfg.success_threshold) ≡ true
      → (cb_value b.state == cb_value state_half_open) ≡ true
      → Probed now stamp n b none
  unfolding solo advance half_open_after
  probe_success_closes b h e = rw (h, e) refl

  probe_success_late :
      (b : Breaker)
      → geb_i32 (suc_i32 b.successes) (to_i32 b.cfg.success_threshold) ≡ true
      → (cb_value b.state == cb_value state_half_open) ≡ false
      → Probed now stamp n b none
  unfolding solo advance half_open_after
  probe_success_late b h e = rw (h, e) refl

  probe_failure :
      (b : Breaker) (e : Error) (won : Bool)
      → (cb_value b.state == cb_value state_half_open) ≡ won
      → Probed now stamp n b (some e)
  unfolding solo advance half_open_after
  probe_failure b e true h = ground arith
  probe_failure b e false h = ground arith

  probe_call-solo : (b : Breaker) (r : Option Error) → Probed now stamp n b r
  probe_call-solo b (some e) = probe_failure b e _ refl
  probe_call-solo b none =
      elim (Bool-cases (geb_i32 (suc_i32 b.successes) (to_i32 b.cfg.success_threshold))) [
        | inr short ↦ probe_success_short b short
        | inl enough ↦ elim (Bool-cases (cb_value b.state == cb_value state_half_open)) [
          | inl won ↦ probe_success_closes b enough won
          | inr lost ↦ probe_success_late b enough lost
        ]
      ]

  probe_enter-taken :
      (b : Breaker) (r : Option Error)
      → (b.half_open_in_flight == 0) ≡ false
      → solo (suc (suc (suc (suc (suc (suc (suc (suc (suc n))))))))) now stamp r (b, probe_enter)
        ≡ solo n now stamp r (b, returned (some (sentinel err_circuit_open)))
  unfolding solo advance
  probe_enter-taken b r h = rw h refl

  -- From the CompareAndSwap on the slot.
  probe_enter-solo :
      (b : Breaker) (r : Option Error)
      → (let (b', _, q) = execute_half_open b stamp (λ (u : Unit {0}). (u, r)) tt in
          solo (suc (suc (suc (suc (suc (suc (suc (suc (suc n))))))))) now stamp r (b, probe_enter)
          ≡ solo n now stamp r (b', returned q))
  unfolding execute_half_open
  probe_enter-solo b r = elim (Bool-cases (b.half_open_in_flight == 0)) [
    | inl free ↦
        rw (probe_enter-free now stamp _ b r free, free, execute_half_open)
          (probe_call-solo (record b { half_open_in_flight = 1 }) r)
    | inr taken ↦ rw (probe_enter-taken b r taken, taken, execute_half_open) refl
  ]

-- The outcome of `executeHalfOpen` and the like, as the state of a goroutine that has returned.
abbrev pub done : Breaker × Unit {0} × Option Error → Breaker × Pc
done (b, _, r) = (b, returned r)

-- A function that returns `r` and has no other effect.
abbrev pub answer : Option Error → Unit {0} → Unit {0} × Option Error
answer r u = (u, r)

module _ (now stamp : ℕ) (b : Breaker) (r : Option Error) where
  abbrev fn : Unit {0} → Unit {0} × Option Error
  fn = answer r

  probing-solo :
      (n : ℕ) (b' : Breaker)
      → solo (suc (suc (suc (suc (suc (suc (suc (suc (suc n))))))))) now stamp r (b', probe_enter)
        ≡ done (execute_half_open b' stamp fn tt)
  probing-solo n b' = probe_enter-solo now stamp n b' r ∙ returned-solo n now stamp _ r _

  swap-solo : solo 12 now stamp r (b, swap_half) ≡ done (enter_half_open b stamp fn tt)
  unfolding enter_half_open
  swap-solo = elim (Bool-cases (cb_value b.state == cb_value state_open)) [
    | inl won ↦ swap_half-solo now stamp 9 b r won ∙ rw (won, enter_half_open) (probing-solo 0 _)
    | inr lost ↦
        swap_half-lost now stamp 11 b r lost ∙ rw (lost, enter_half_open) (probing-solo 2 b)
  ]

  dispatch-solo :
      (s : CbState) → solo 13 now stamp r (b, dispatch s) ≡ done (execute_from s b now stamp fn tt)
  unfolding execute_from
  dispatch-solo state_closed = closed_call-solo now stamp 7 b r ∙ returned-solo 7 now stamp _ r r
  dispatch-solo state_half_open = probing-solo 4 b
  dispatch-solo state_open = elim (Bool-cases (is_waiting b now)) [
    | inl w ↦ timeout-waiting now stamp 12 b r w ∙ rw w (returned-solo 12 now stamp b r _)
    | inr o ↦ timeout-over now stamp 12 b r o ∙ rw o swap-solo
  ]

-- A goroutine that is not interrupted returns within fourteen operations, and leaves the breaker and
-- returns the error that the sequential `execute` computes, on every breaker.
pub solo-execute :
    (now stamp : ℕ) (b : Breaker) (r : Option Error)
    → solo 14 now stamp r (b, idle) ≡ done (execute b now stamp (answer r) tt)
unfolding solo advance execute
solo-execute now stamp b r = dispatch-solo now stamp b r b.state
