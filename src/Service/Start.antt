-- ===== src/Service/Start.antt =====
-- Requests to the orchestrator that `Run` of internal/cli/run.go makes, one after another from the start, over
-- Wiring and Orchestrator/Rounds.
use riskforge.Prelude.{Bool, List, []}
use riskforge.Prelude.Float.{Float}
use riskforge.Domain.{Carrier}
use riskforge.RateLimiter.{TokenBucket}
use riskforge.Adapter.Mock.{Simulation}
use riskforge.Orchestrator.Rounds.{Engine}
use riskforge.Service.Warmup.{fleet_of}

module _ (float : Float) (is_zero_float : float.F → Bool) (bucket : TokenBucket float.F)
    {W : Type 0} (sim : Simulation float.F W) where
  open float use {F}

  abbrev pub engine_of : List (Carrier F) → W → Engine float bucket W
  engine_of cs w =
      let f = fleet_of float is_zero_float bucket sim cs in
      record {
        world = w;
        breakers = f.breakers;
        limiters = f.limiters;
        trackers = f.trackers;
        metrics = [];
      }
