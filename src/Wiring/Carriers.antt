-- ===== src/Wiring/Carriers.antt =====
-- The carriers that `Run` of internal/cli/run.go uses: those of the database or the three built-in ones.
use riskforge.Prelude.{String, false, List, [], ◌∷◌, Option, none, some, ◌⊎◌, inl, inr}
use riskforge.Prelude.Int.{ℤ, pos}
use riskforge.Prelude.Float.{Float}
use riskforge.Domain.{
  CoverageLine, Carrier, CarrierConfig, coverage_line_auto, coverage_line_homeowners,
  coverage_line_umbrella,
}
use riskforge.Domain.Errors.{Error}

module _ (float : Float) where
  open float use {F, div, of_int}

  abbrev built_in : ℤ → ℤ → ℤ → ℤ → CarrierConfig F
  built_in timeout_hint priority tokens burst = record {
    timeout_hint = timeout_hint;
    open_timeout = pos 30_000_000_000;
    failure_threshold = pos 5;
    success_threshold = pos 2;
    hedge_multiplier = div (of_int (pos 3)) (of_int (pos 2));
    ema_alpha = of_int (pos 0);
    ema_window_size = pos 19;
    ema_warmup_observations = pos 10;
    rate_limit = record { tokens_per_second = of_int tokens; burst = burst };
    priority = priority;
  }

  abbrev carrier : String → String → List CoverageLine → CarrierConfig F → Carrier F
  carrier id name lines cfg = record {
    id = id;
    code = "";
    name = name;
    is_active = false;
    capabilities = lines;
    config = cfg;
  }

  abbrev pub build_carriers : List (Carrier F)
  build_carriers =
      carrier "alpha" "Alpha Insurance" (coverage_line_auto ∷ coverage_line_homeowners ∷ [])
        (built_in (pos 100_000_000) (pos 1) (pos 100) (pos 10))
      ∷ carrier "beta" "Beta Insurance"
          (coverage_line_auto ∷ coverage_line_homeowners ∷ coverage_line_umbrella ∷ [])
          (built_in (pos 200_000_000) (pos 2) (pos 50) (pos 5))
      ∷ carrier "gamma" "Gamma Insurance" (coverage_line_homeowners ∷ coverage_line_umbrella ∷ [])
          (built_in (pos 800_000_000) (pos 3) (pos 100) (pos 10))
      ∷ []

  -- The answer of `ListActive`, or none without a configured database.
  unfoldable pub choose_carriers : Option (Error ⊎ List (Carrier F)) → List (Carrier F)
  choose_carriers none = build_carriers
  choose_carriers (some (inl e)) = build_carriers
  choose_carriers (some (inr [])) = build_carriers
  choose_carriers (some (inr (c ∷ cs))) = c ∷ cs
