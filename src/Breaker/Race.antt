-- ===== src/Breaker/Race.antt =====
-- Interleavings that the sequential reading of internal/circuitbreaker/breaker.go does not show.
use riskforge.Prelude.{update, subst, ap, ◌∙◌, ℕ, ◌≡◌, refl, false, Option, none, arith}
use riskforge.Prelude.Int.{suc_i32, geb_i32, to_i32}
use riskforge.Domain.Errors.{Error}
use riskforge.Breaker.{state_closed, Breaker}
use riskforge.Breaker.Goroutines.{
  Pc, probe_enter, probe_call, probe_count, leaving, returned, advance, System, Step, operate,
  Reach, here, next,
}

update_self : (f : ℕ → Pc) (i : ℕ) (p : Pc) → update f i p i ≡ p
update_self f i p = ground arith

-- The step of a goroutine whose place and whose operation are known.
move :
    (s : System) (j now : ℕ) (r : Option Error) {p p' : Pc} {b' : Breaker}
    → s.pc j ≡ p
    → advance now r p s.mem ≡ (b', p')
    → Step s (record { mem = b'; pc = update s.pc j p' })
move s j now r h e =
    subst (λ (x : Breaker × Pc). Step s (record { mem = x.0; pc = update s.pc j x.1 }))
      (ap (λ q. advance now r q s.mem) h ∙ e) (operate j now r)

enter_free :
    (now : ℕ) (b : Breaker)
    → b.half_open_in_flight ≡ 0
    → advance now none probe_enter b ≡ (record b { half_open_in_flight = 1 }, probe_call)
unfolding advance
enter_free now b h = ground arith

call_ends : (now : ℕ) (b : Breaker) → advance now none probe_call b ≡ (b, probe_count)
unfolding advance
call_ends now b = refl

count_short :
    (now : ℕ) (b : Breaker)
    → geb_i32 (suc_i32 b.successes) (to_i32 b.cfg.success_threshold) ≡ false
    → advance now none probe_count b ≡ (record b { successes = suc_i32 b.successes }, leaving none)
unfolding advance
count_short now b h = rw h refl

leave_frees :
    (now : ℕ) (b : Breaker)
    → advance now none (leaving none) b ≡ (record b { half_open_in_flight = 0 }, returned none)
unfolding advance
leave_frees now b = refl

-- A goroutine that read HalfOpen is about to enter the free slot after the circuit was closed, and one
-- more success does not reach the threshold. It can run to its end alone, and its success is then
-- counted in the closed breaker.
pub late_success_counts :
    (s : System) (j now : ℕ)
    → s.pc j ≡ probe_enter
    → s.mem.state ≡ state_closed
    → s.mem.half_open_in_flight ≡ 0
    → geb_i32 (suc_i32 s.mem.successes) (to_i32 s.mem.cfg.success_threshold) ≡ false
    → (t : System) × Reach s t
      × (t.pc j ≡ returned none)
      × (t.mem.state ≡ state_closed)
      × (t.mem.successes ≡ suc_i32 s.mem.successes)
late_success_counts s j now p o f g = (
  s4,
  next (next (next (next here entered) called) counted) left,
  update_self s3.pc j (returned none),
  o,
  refl,
)
  where
    b1 : Breaker
    b1 = record s.mem { half_open_in_flight = 1 }

    s1 : System
    s1 = record { mem = b1; pc = update s.pc j probe_call }

    s2 : System
    s2 = record { mem = b1; pc = update s1.pc j probe_count }

    b3 : Breaker
    b3 = record b1 { successes = suc_i32 s.mem.successes }

    s3 : System
    s3 = record { mem = b3; pc = update s2.pc j (leaving none) }

    s4 : System
    s4 = record { mem = record b3 { half_open_in_flight = 0 }; pc = update s3.pc j (returned none) }

    entered : Step s s1
    entered = move s j now none p (enter_free now s.mem f)

    called : Step s1 s2
    called = move s1 j now none (update_self s.pc j probe_call) (call_ends now b1)

    counted : Step s2 s3
    counted = move s2 j now none (update_self s1.pc j probe_count) (count_short now b1 g)

    left : Step s3 s4
    left = move s3 j now none (update_self s2.pc j (leaving none)) (leave_frees now b3)
