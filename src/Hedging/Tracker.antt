-- ===== src/Hedging/Tracker.antt =====
-- `EMATracker` of internal/orchestrator/hedging.go, for calls that do not overlap. The observation
-- count is an int that does not reach 2 ^ 63; `gauge` lists the values given to SetP95Latency, the
-- newest first.
use native.Mathlib.Nat.{zero-add}
use riskforge.Prelude.{
  ℕ, ◌+◌, ◌≡◌, refl, ap, ◌∙◌, String, ◌||◌, List, [], ◌∷◌, length, if◌then◌else◌, arith,
}
use riskforge.Prelude.Int.{ℤ, pos, ltb_ℤ, milliseconds}
use riskforge.Prelude.Float.{Float}
use riskforge.Domain.{CarrierConfig}

module _ (float : Float) where
  open float use {F, le, add, sub, mul, div, of_int, tenth, max_float}

  pub record EmaState : Type 0 where
    pub p95 : F
    pub observations : ℕ

  pub record EmaTracker : Type 0 where
    pub carrier_id : String
    pub alpha : F
    pub multiplier : F
    pub warmup : ℤ
    pub state : EmaState
    pub gauge : List F

  abbrev chosen_alpha : CarrierConfig F → F
  chosen_alpha cfg =
      if ltb_ℤ (pos 0) cfg.ema_window_size
      then div (of_int (pos 2)) (add (of_int cfg.ema_window_size) (of_int (pos 1)))
      else cfg.ema_alpha

  -- `alpha <= 0 || alpha >= 1` falls back to 0.1.
  abbrev pub valid_alpha : F → F
  valid_alpha a = if le a (of_int (pos 0)) || le (of_int (pos 1)) a then tenth else a

  unfoldable pub new_ema_tracker : String → ℤ → CarrierConfig F → EmaTracker
  new_ema_tracker carrier_id seed cfg = record {
    carrier_id = carrier_id;
    alpha = valid_alpha (chosen_alpha cfg);
    multiplier = cfg.hedge_multiplier;
    warmup = cfg.ema_warmup_observations;
    state = record { p95 = mul (of_int (milliseconds seed)) (of_int (pos 2)); observations = 0 };
    gauge = [];
  }

  abbrev pub blend : F → ℤ → F → F
  blend alpha latency old =
      add (mul alpha (div (of_int latency) (of_int (pos 1_000_000))))
        (mul (sub (of_int (pos 1)) alpha) old)

  unfoldable pub record_latency : ℤ → EmaTracker → EmaTracker
  record_latency latency t = record t {
    state = record {
      p95 = blend t.alpha latency t.state.p95;
      observations = t.state.observations + 1;
    };
    gauge = blend t.alpha latency t.state.p95 ∷ t.gauge;
  }

  unfoldable pub hedge_threshold : EmaTracker → F
  hedge_threshold t =
      if ltb_ℤ (pos t.state.observations) t.warmup then max_float else mul t.state.p95 t.multiplier

  -- Recordings one after another, the first one first.
  abbrev pub record_all : List ℤ → EmaTracker → EmaTracker
  record_all [] t = t
  record_all (l ∷ ls) t = record_all ls (record_latency l t)

  -- The moving average of the latencies.
  abbrev pub average : F → F → List ℤ → F
  average alpha start [] = start
  average alpha start (l ∷ ls) = average alpha (blend alpha l start) ls

  hedge_threshold-record_all :
      (ls : List ℤ) (t : EmaTracker)
      → hedge_threshold (record_all ls t) ≡ (
          if ltb_ℤ (pos (t.state.observations + length ls)) t.warmup
          then max_float
          else mul (average t.alpha t.state.p95 ls) t.multiplier)
  unfolding hedge_threshold record_latency
  hedge_threshold-record_all [] t = ground arith
  hedge_threshold-record_all (l ∷ ls) t =
      hedge_threshold-record_all ls (record_latency l t)
      ∙ ap
          (λ (n : ℕ).
            if ltb_ℤ (pos n) t.warmup
            then max_float
            else mul (average t.alpha (blend t.alpha l t.state.p95) ls) t.multiplier)
          (omega arith)

  -- A new tracker suppresses hedging (its threshold is the largest float) while fewer latencies than
  -- the configured warm-up were recorded; from then on its threshold is the moving average of all
  -- latencies so far, begun at twice the seed, times the multiplier.
  pub hedge_threshold-new_ema_tracker :
      (carrier_id : String) (seed : ℤ) (cfg : CarrierConfig F) (ls : List ℤ)
      → (let t = new_ema_tracker carrier_id seed cfg in
          hedge_threshold (record_all ls t) ≡ (
            if ltb_ℤ (pos (length ls)) cfg.ema_warmup_observations
            then max_float
            else mul
                (average t.alpha (mul (of_int (milliseconds seed)) (of_int (pos 2))) ls)
                cfg.hedge_multiplier))
  unfolding new_ema_tracker
  hedge_threshold-new_ema_tracker carrier_id seed cfg ls =
      hedge_threshold-record_all ls (new_ema_tracker carrier_id seed cfg) ∙ (rw zero-add refl)
