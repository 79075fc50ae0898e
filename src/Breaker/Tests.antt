-- ===== src/Breaker/Tests.antt =====
-- The theorems on the breaker at concrete inputs, and runs of the code.
use riskforge.Prelude.{
  ℕ, zero, suc, ◌+◌, ◌≡◌, refl, true, false, List, [], ◌∷◌, Option, none, some, arith, ltb, length,
  if◌then◌else◌, ◌⊎◌,
}
use riskforge.Prelude.Int.{pos}
use riskforge.Domain.Errors.{Error, sentinel, err_carrier_unavailable}
use riskforge.Breaker.{
  CbState, state_closed, state_open, Breaker, Config, new, execute, is_waiting, set_cb_state,
}
use riskforge.Breaker.Spec.{closed, tripped, probing, view, IsWellFormed}
use riskforge.Breaker.Refinement.{outcome, execute-spec_execute}
use riskforge.Breaker.History.{Call, run, run_of_failures, run_of_probes}
use riskforge.Breaker.Goroutines.{
  Pc, idle, probe_enter, probe_call, closed_stamp, System, Reach, here, init, advance, schedule,
  schedule-Reach,
}
use riskforge.Breaker.Slot.{in_slot, probe_exclusion, slot_flag}
use riskforge.Breaker.Goroutines.{turn}

abbrev down : Error
down = sentinel err_carrier_unavailable

abbrev small : Config
small = record { failure_threshold = pos 2; success_threshold = pos 2; open_timeout = pos 30 }

-- `fn` counts its calls.
abbrev failing : ℕ → Call ℕ
failing t = record { now = t; stamp = t + 1; fn = λ n. (n + 1, some down) }

abbrev working : ℕ → Call ℕ
working t = record { now = t; stamp = t + 1; fn = λ n. (n + 1, none) }

abbrev at : CbState → ℕ → ℕ → ℕ → Breaker
at s k m t = record {
  carrier_id = "alpha";
  cfg = small;
  metrics = set_cb_state "alpha" state_closed ∷ [];
  state = s;
  failures = k;
  successes = m;
  half_open_in_flight = 0;
  opened_at = t;
}

closed_one-IsWellFormed : IsWellFormed (at state_closed 1 0 0)
closed_one-IsWellFormed = omega arith

open_ten-IsWellFormed : IsWellFormed (at state_open 2 0 10)
open_ten-IsWellFormed = omega arith

-- Two failures open the circuit, a call is turned away, and two probes close it.
life_cycle :
    (run (new "alpha" small) 0 (failing 1 ∷ failing 5 ∷ working 7 ∷ working 36 ∷ working 37 ∷ [])).1
    ≡ 4
unfolding run new execute is_waiting
life_cycle = refl

execute-spec_execute_example :
    (outcome (execute (at state_open 2 0 10) 50 51 (λ (n : ℕ). (n + 1, some down)) 0)
      ≡ (tripped 51, 1, some down))
    × IsWellFormed (execute (at state_open 2 0 10) 50 51 (λ (n : ℕ). (n + 1, some down)) 0).0
execute-spec_execute_example =
    execute-spec_execute (at state_open 2 0 10) 50 51 (λ n. (n + 1, some down)) 0
      open_ten-IsWellFormed

run_of_failures_example : view (run (at state_closed 1 0 0) 0 (failing 5 ∷ [])).0 ≡ (
    if ltb (1 + length (failing 5 ∷ [])) 2 then closed (1 + length (failing 5 ∷ [])) else tripped 6)
run_of_failures_example =
    run_of_failures (at state_closed 1 0 0) 1 0 0 (failing 5 ∷ []) closed_one-IsWellFormed refl
      ((λ w. (down, refl)), tt) (omega arith)

run_of_probes_example : view (run (at state_open 2 0 10) 0 (working 40 ∷ working 41 ∷ [])).0 ≡ (
    if ltb (0 + length (working 40 ∷ working 41 ∷ [])) 2
    then probing (0 + length (working 40 ∷ working 41 ∷ []))
    else closed 0)
run_of_probes_example =
    run_of_probes (working 41 ∷ []) (working 40) (at state_open 2 0 10) 0 0 open_ten-IsWellFormed
      refl ((λ w. refl), ((λ w. refl), tt)) (omega arith)

-- One goroutine has been sent to the probe of a breaker that waits, and another has not begun.
abbrev place : Pc → ℕ → Pc
place p zero = p
place p (suc _) = idle

abbrev quick : Config
quick = record { failure_threshold = pos 1; success_threshold = pos 1; open_timeout = pos 1 }

-- Goroutine 0 trips the circuit; 1 and 2 read HalfOpen, 1 enters the slot, and 2 is about to try.
abbrev order : List (ℕ × ℕ × Option Error)
order =
    (0, 5, none)
    ∷ (0, 5, some down)
    ∷ (0, 5, none)
    ∷ (0, 5, none)
    ∷ (0, 5, none)
    ∷ (1, 9, none)
    ∷ (1, 9, none)
    ∷ (1, 9, none)
    ∷ (1, 9, none)
    ∷ (1, 9, none)
    ∷ (2, 9, none)
    ∷ (1, 9, none)
    ∷ []

contended : System
contended = schedule (init "alpha" quick) order

contended_slot : (contended.pc 1 ≡ probe_call) × (contended.pc 2 ≡ probe_enter)
unfolding contended schedule advance new is_waiting
contended_slot = (refl, refl)

contended-Reach : Reach (init "alpha" quick) contended
unfolding contended
contended-Reach = schedule-Reach order (init "alpha" quick) (init "alpha" quick) here

one_in_slot : in_slot (contended.pc 1) ≡ true
unfolding contended schedule advance new is_waiting
one_in_slot = refl

probe_exclusion_example : ◌≡◌ {A = ℕ} 1 1
probe_exclusion_example =
    probe_exclusion "alpha" quick contended contended-Reach 1 1 one_in_slot one_in_slot

slot_flag_example :
    ((contended.mem.half_open_in_flight ≡ 0) × ((i : ℕ) → in_slot (contended.pc i) ≡ false))
    ⊎ ((contended.mem.half_open_in_flight ≡ 1) × ((i : ℕ) × (in_slot (contended.pc i) ≡ true)))
slot_flag_example = slot_flag "alpha" quick contended contended-Reach

abbrev opening : System
opening = record { mem = at state_open 2 0 0; pc = place (closed_stamp down) }

abbrev raced : System
raced = turn (turn (turn opening 1 1_000 none) 1 1_000 none) 1 1_000 none
