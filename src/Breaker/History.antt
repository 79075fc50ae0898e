-- ===== src/Breaker/History.antt =====
-- Sequences of calls that do not overlap on one breaker of internal/circuitbreaker/breaker.go.
use riskforge.Breaker.{Config, new}
use riskforge.Prelude.{
  ltb, ◌≤◌, String, ℕ, suc, ◌+◌, ◌<◌, ◌≡◌, refl, List, [], ◌∷◌, Option, none, some, arith, All,
  length, ap, ◌∙◌, leb, if◌then◌else◌,
}
use riskforge.Prelude.Int.{pos_part}
use riskforge.Domain.Errors.{Error, sentinel, err_circuit_open}
use riskforge.Breaker.{Breaker, execute}
use riskforge.Breaker.Spec.{closed, tripped, probing, view, Limits, limits, admit, IsWellFormed}
use riskforge.Breaker.Refinement.{execute-spec_execute}

-- One call of `Execute`: its clock reads and the function that it is given.
pub record Call (W : Type 0) : Type 0 where
  pub now : ℕ
  pub stamp : ℕ
  pub fn : W → W × Option Error

module _ {W : Type 0} where
  abbrev pub call : Breaker → W → Call W → Breaker × W × Option Error
  call b w c = execute b c.now c.stamp c.fn w

  unfoldable pub run : Breaker → W → List (Call W) → Breaker × W
  run b w [] = (b, w)
  run b w (c ∷ cs) = let (b', w', r) = call b w c in run b' w' cs

  abbrev pub Fails : Call W → Type 0
  Fails c = (w : W) → (e : Error) × ((c.fn w).1 ≡ some e)

  abbrev pub Succeeds : Call W → Type 0
  Succeeds c = (w : W) → (c.fn w).1 ≡ none

  abbrev pub last_stamp : ℕ → List (Call W) → ℕ
  last_stamp d [] = d
  last_stamp d (c ∷ cs) = last_stamp c.stamp cs

  limits-call : (b : Breaker) (w : W) (c : Call W) → limits (call b w c).0 ≡ limits b
  unfolding execute
  limits-call b w c = ground arith

  failure_threshold-call :
      (b : Breaker) (w : W) (c : Call W)
      → (limits (call b w c).0).failure_threshold ≡ (limits b).failure_threshold
  failure_threshold-call b w c = ap (λ (l : Limits). l.failure_threshold) (limits-call b w c)

  success_threshold-call :
      (b : Breaker) (w : W) (c : Call W)
      → (limits (call b w c).0).success_threshold ≡ (limits b).success_threshold
  success_threshold-call b w c = ap (λ (l : Limits). l.success_threshold) (limits-call b w c)

  call-IsWellFormed :
      (b : Breaker) (w : W) (c : Call W) → IsWellFormed b → IsWellFormed (call b w c).0
  call-IsWellFormed b w c v = (execute-spec_execute b c.now c.stamp c.fn w v).1

  fail-closed :
      (b : Breaker) (k : ℕ) (c : Call W) (w : W)
      → IsWellFormed b
      → view b ≡ closed k
      → Fails c
      → suc k < (limits b).failure_threshold
      → view (call b w c).0 ≡ closed (suc k)
  fail-closed b k c w v e f h = ground (arith, f w, execute-spec_execute b c.now c.stamp c.fn w v)

  fail-trips :
      (b : Breaker) (k : ℕ) (c : Call W) (w : W)
      → IsWellFormed b
      → view b ≡ closed k
      → Fails c
      → suc k ≡ (limits b).failure_threshold
      → view (call b w c).0 ≡ tripped c.stamp
  fail-trips b k c w v e f h = ground (arith, f w, execute-spec_execute b c.now c.stamp c.fn w v)

  pub run-IsWellFormed :
      (cs : List (Call W)) (b : Breaker) (w : W) → IsWellFormed b → IsWellFormed (run b w cs).0
  unfolding run
  run-IsWellFormed [] b w v = v
  run-IsWellFormed (c ∷ cs) b w v =
      run-IsWellFormed cs (call b w c).0 (call b w c).1 (call-IsWellFormed b w c v)

  run_below :
      (cs : List (Call W)) (b : Breaker) (k : ℕ) (w : W)
      → IsWellFormed b
      → view b ≡ closed k
      → All Fails cs
      → k + length cs < (limits b).failure_threshold
      → view (run b w cs).0 ≡ closed (k + length cs)
  unfolding run
  run_below [] b k w v e f h = ground arith
  run_below (c ∷ cs) b k w v e (f, fs) h =
      run_below cs (call b w c).0 (suc k) (call b w c).1 (call-IsWellFormed b w c v)
        (fail-closed b k c w v e f (omega arith)) fs (omega (arith, failure_threshold-call b w c))
      ∙ ap closed (omega arith)

  run_reaching :
      (cs : List (Call W)) (c : Call W) (b : Breaker) (k d : ℕ) (w : W)
      → IsWellFormed b
      → view b ≡ closed k
      → All Fails (c ∷ cs)
      → k + length (c ∷ cs) ≡ (limits b).failure_threshold
      → view (run b w (c ∷ cs)).0 ≡ tripped (last_stamp d (c ∷ cs))
  unfolding run
  run_reaching [] c b k d w v e (f, fs) h = fail-trips b k c w v e f (omega arith)
  run_reaching (c' ∷ cs) c b k d w v e (f, fs) h =
      run_reaching cs c' (call b w c).0 (suc k) d (call b w c).1 (call-IsWellFormed b w c v)
        (fail-closed b k c w v e f (omega arith)) fs (omega (arith, failure_threshold-call b w c))

  -- On a closed, well-formed breaker that has counted `k` failures, further failing calls, at most as
  -- many as the threshold leaves room for, are counted and keep it closed while the total is below the
  -- threshold; the call that reaches the threshold trips it, and the opening is dated by its stamp.
  pub run_of_failures :
      (b : Breaker) (k d : ℕ) (w : W) (cs : List (Call W))
      → IsWellFormed b
      → view b ≡ closed k
      → All Fails cs
      → k + length cs ≤ (limits b).failure_threshold
      → view (run b w cs).0 ≡ (
          if ltb (k + length cs) (limits b).failure_threshold
          then closed (k + length cs)
          else tripped (last_stamp d cs))
  run_of_failures b k d w [] v e f h = ground (arith, run_below [] b k w v e f)
  run_of_failures b k d w (c ∷ cs) v e f h =
      ground (arith, run_below (c ∷ cs) b k w v e f, run_reaching cs c b k d w v e f)

  waiting_step :
      (b : Breaker) (since : ℕ) (c : Call W) (w : W)
      → IsWellFormed b
      → view b ≡ tripped since
      → c.now < since + (limits b).open_timeout
      → call b w c ≡ (b, w, some (sentinel err_circuit_open))
  unfolding execute
  waiting_step b since c w v e h = ground arith

  -- While the timeout of a tripped, well-formed breaker runs, no call has any effect: the breaker and
  -- its log stay as they are, and none of the functions is called.
  pub run_while_waiting :
      (b : Breaker) (since : ℕ) (w : W) (cs : List (Call W))
      → IsWellFormed b
      → view b ≡ tripped since
      → All (λ (c : Call W). c.now < since + (limits b).open_timeout) cs
      → run b w cs ≡ (b, w)
  unfolding run
  run_while_waiting b since w [] v e h = refl
  run_while_waiting b since w (c ∷ cs) v e (h, hs) =
      rw (waiting_step b since c w v e h) (run_while_waiting b since w cs v e hs)

  probe-step :
      (b : Breaker) (k : ℕ) (c : Call W) (w : W)
      → IsWellFormed b
      → admit (limits b) (view b) c.now ≡ some (probing k)
      → Succeeds c
      → view (call b w c).0
        ≡ (if leb (limits b).success_threshold (suc k) then closed 0 else probing (suc k))
  probe-step b k c w v e f = ground (arith, f w, execute-spec_execute b c.now c.stamp c.fn w v)

  -- The first probe of several leaves a breaker that admits the second one.
  probe-admit :
      (b : Breaker) (k : ℕ) (c : Call W) (w : W) (now : ℕ)
      → IsWellFormed b
      → admit (limits b) (view b) c.now ≡ some (probing k)
      → Succeeds c
      → suc k < (limits b).success_threshold
      → admit (limits (call b w c).0) (view (call b w c).0) now ≡ some (probing (suc k))
  probe-admit b k c w now v e f h = ground (arith, probe-step b k c w v e f)

  probes_below :
      (cs : List (Call W)) (c : Call W) (b : Breaker) (k : ℕ) (w : W)
      → IsWellFormed b
      → admit (limits b) (view b) c.now ≡ some (probing k)
      → All Succeeds (c ∷ cs)
      → k + length (c ∷ cs) < (limits b).success_threshold
      → view (run b w (c ∷ cs)).0 ≡ probing (k + length (c ∷ cs))
  unfolding run
  probes_below [] c b k w v e (f, fs) h = ground (arith, probe-step b k c w v e f)
  probes_below (c' ∷ cs) c b k w v e (f, fs) h =
      probes_below cs c' (call b w c).0 (suc k) (call b w c).1 (call-IsWellFormed b w c v)
        (probe-admit b k c w c'.now v e f (omega arith)) fs
        (omega (arith, success_threshold-call b w c))
      ∙ ap probing (omega arith)

  probes_reaching :
      (cs : List (Call W)) (c : Call W) (b : Breaker) (k : ℕ) (w : W)
      → IsWellFormed b
      → admit (limits b) (view b) c.now ≡ some (probing k)
      → All Succeeds (c ∷ cs)
      → k + length (c ∷ cs) ≡ (limits b).success_threshold
      → view (run b w (c ∷ cs)).0 ≡ closed 0
  unfolding run
  probes_reaching [] c b k w v e (f, fs) h = ground (arith, probe-step b k c w v e f)
  probes_reaching (c' ∷ cs) c b k w v e (f, fs) h =
      probes_reaching cs c' (call b w c).0 (suc k) (call b w c).1 (call-IsWellFormed b w c v)
        (probe-admit b k c w c'.now v e f (omega arith)) fs
        (omega (arith, success_threshold-call b w c))

  -- A well-formed breaker that admits the next call as a probe, with `k` probes counted, goes on
  -- probing while the successful probes are fewer than the success threshold, and closes with no
  -- failures counted at the one that reaches it.
  pub run_of_probes :
      (cs : List (Call W)) (c : Call W) (b : Breaker) (k : ℕ) (w : W)
      → IsWellFormed b
      → admit (limits b) (view b) c.now ≡ some (probing k)
      → All Succeeds (c ∷ cs)
      → k + length (c ∷ cs) ≤ (limits b).success_threshold
      → view (run b w (c ∷ cs)).0 ≡ (
          if ltb (k + length (c ∷ cs)) (limits b).success_threshold
          then probing (k + length (c ∷ cs))
          else closed 0)
  run_of_probes cs c b k w v e f h =
      ground (arith, probes_below cs c b k w v e f, probes_reaching cs c b k w v e f)

pub new-IsWellFormed :
    (carrier_id : String) (cfg : Config)
    → pos_part cfg.failure_threshold < 2147483648
    → pos_part cfg.success_threshold < 2147483648
    → IsWellFormed (new carrier_id cfg)
unfolding new
new-IsWellFormed carrier_id cfg f s = ground arith

-- A breaker that `New` makes from any configuration whose thresholds are below 2 ^ 31, negative and
-- zero ones included, is well formed after any calls that do not overlap: the slot is free and each
-- counter stays below its threshold.
pub run-new-IsWellFormed :
    {W : Type 0} (carrier_id : String) (cfg : Config) (w : W) (cs : List (Call W))
    → pos_part cfg.failure_threshold < 2147483648
    → pos_part cfg.success_threshold < 2147483648
    → IsWellFormed (run (new carrier_id cfg) w cs).0
run-new-IsWellFormed carrier_id cfg w cs f s =
    run-IsWellFormed cs (new carrier_id cfg) w (new-IsWellFormed carrier_id cfg f s)
