-- ===== src/Wiring.antt =====
-- The construction of the parts in `Run` of internal/cli/run.go: what each carrier is given (Carriers has
-- which carriers are used). The logger, the metrics recorder and the HTTP server are left out; breakers count
-- their own metrics.
pub mod Carriers
pub mod Process
use text.Mathlib.Text.{◌==◌ as same_text}
use text.Mathlib.TextPositions.{eq_refl}
use text.Mathlib.TextEquality.{eq_iff}
use riskforge.Prelude.{
  ℕ, ◌<◌, ◌≡◌, ◌≢◌, refl, sym, subst, ◌∙◌, String, Bool, true, false, List, [], ◌∷◌, Option, none,
  some, ◌⊎◌, inl, inr, Dict, read, write, read-write_same, read-write_other, All, OneOf, All-OneOf,
  ◌==◌, Bool-cases, if◌then◌else◌, arith,
}
use riskforge.Prelude.Int.{ℤ, pos, negsuc, pos_part, leb_ℤ}
use riskforge.Prelude.Float.{Float}
use riskforge.Domain.{
  Carrier, CarrierConfig, RateLimitConfig, coverage_line_auto, coverage_line_homeowners,
  coverage_line_umbrella,
}
use riskforge.Domain.Errors.{Error}
use riskforge.Breaker.{Breaker, state_closed}
use riskforge.Breaker
use riskforge.Breaker.Spec.{IsWellFormed}
use riskforge.Breaker.History.{new-IsWellFormed}
use riskforge.RateLimiter.{TokenBucket, Limiter}
use riskforge.RateLimiter
use riskforge.Hedging.Tracker.{EmaTracker, new_ema_tracker}
use riskforge.Adapter.Registry.{
  AdapterFunc, AdapterRegistry, registry_register, registry_get, registry_get-registry_register,
}
use riskforge.Adapter.Mock.{MockCarrier, new_mock_carrier, Simulation, register_mock_carrier}

-- The keys of API_KEYS that are left when the pieces between the commas are trimmed.
unfoldable pub api_keys : (String → String) → List String → List String
api_keys trim [] = []
api_keys trim (k ∷ ks) =
    let rest = api_keys trim ks in if same_text (trim k) "" then rest else trim k ∷ rest

abbrev is_zero : ℤ → Bool
is_zero (pos n) = n == 0
is_zero (negsuc n) = false

-- `x == 0`, and then the default.
abbrev pub unless_zero : ℤ → ℤ → ℤ
unless_zero x d = if is_zero x then d else x

below :
    (x : ℤ) (n : ℕ)
    → pos_part x < 2147483648
    → n < 2147483648
    → pos_part (unless_zero x (pos n)) < 2147483648
below (pos x) n h k = ground arith
below (negsuc x) n h k = ground arith

module _ (float : Float) (is_zero_float : float.F → Bool) where
  open float use {F, div, of_int}

  abbrev unless_zero_float : F → F → F
  unless_zero_float x d = if is_zero_float x then d else x

  -- 3 / 2 is exact in float64.
  abbrev pub one_and_a_half : F
  one_and_a_half = div (of_int (pos 3)) (of_int (pos 2))

  unfoldable pub with_config_defaults : CarrierConfig F → CarrierConfig F
  with_config_defaults cfg = record cfg {
    failure_threshold = unless_zero cfg.failure_threshold (pos 5);
    success_threshold = unless_zero cfg.success_threshold (pos 2);
    open_timeout = unless_zero cfg.open_timeout (pos 30_000_000_000);
    timeout_hint = unless_zero cfg.timeout_hint (pos 200_000_000);
    hedge_multiplier = unless_zero_float cfg.hedge_multiplier one_and_a_half;
    ema_window_size = unless_zero cfg.ema_window_size (pos 19);
    ema_warmup_observations = unless_zero cfg.ema_warmup_observations (pos 10);
    rate_limit = record {
      tokens_per_second = unless_zero_float cfg.rate_limit.tokens_per_second (of_int (pos 100));
      burst = unless_zero cfg.rate_limit.burst (pos 10);
    };
  }

  module _ (bucket : TokenBucket F) {W : Type 0} (sim : Simulation F W) where
    -- The four maps.
    pub record Fleet : Type 0 where
      pub registry : AdapterRegistry F W
      pub breakers : Dict Breaker
      pub limiters : Dict (Limiter bucket)
      pub trackers : Dict (EmaTracker float)

    abbrev pub no_fleet : Fleet
    no_fleet = record { registry = []; breakers = []; limiters = []; trackers = [] }

    abbrev pub breaker_config : CarrierConfig F → Breaker.Config
    breaker_config cfg = record {
      failure_threshold = cfg.failure_threshold;
      success_threshold = cfg.success_threshold;
      open_timeout = cfg.open_timeout;
    }

    abbrev pub mock_of : String → CarrierConfig F → MockCarrier F
    mock_of id cfg = new_mock_carrier id (record {
      base_latency = cfg.timeout_hint;
      jitter_ms = pos 10;
      failure_rate = of_int (pos 0);
    })

    -- The body of the loop over the carriers.
    unfoldable pub equip : Carrier F → Fleet → Fleet
    unfolding with_config_defaults
    equip c f =
        let cfg = with_config_defaults c.config in
        record {
          registry =
              registry_register c.id (register_mock_carrier sim (mock_of c.id cfg)) f.registry;
          breakers = write f.breakers c.id (Breaker.new c.id (breaker_config cfg));
          limiters = write f.limiters c.id (RateLimiter.new bucket c.id cfg.rate_limit);
          trackers = write f.trackers c.id (new_ema_tracker float c.id cfg.timeout_hint cfg);
        }

    unfoldable pub equip_all : List (Carrier F) → Fleet → Fleet
    unfolding equip
    equip_all [] f = f
    equip_all (c ∷ cs) f = equip_all cs (equip c f)

    -- What the maps have for a carrier is made from one configuration.
    pub record IsEquipped (id : String) (cfg : CarrierConfig F) (f : Fleet) : Type 0 where
      pub adapter : registry_get id f.registry ≡ some (register_mock_carrier sim (mock_of id cfg))
      pub breaker : read f.breakers id ≡ some (Breaker.new id (breaker_config cfg))
      pub limiter : read f.limiters id ≡ some (RateLimiter.new bucket id cfg.rate_limit)
      pub tracker : read f.trackers id ≡ some (new_ema_tracker float id cfg.timeout_hint cfg)

    equip-IsEquipped :
        (c : Carrier F) (f : Fleet) → IsEquipped c.id (with_config_defaults c.config) (equip c f)
    unfolding equip registry_get registry_register
    equip-IsEquipped c f = record {
      adapter = read-write_same f.registry c.id _;
      breaker = read-write_same f.breakers c.id _;
      limiter = read-write_same f.limiters c.id _;
      tracker = read-write_same f.trackers c.id _;
    }

    equip_keeps :
        (c : Carrier F) (f : Fleet) (id : String) (cfg : CarrierConfig F)
        → same_text c.id id ≡ false
        → IsEquipped id cfg f
        → IsEquipped id cfg (equip c f)
    unfolding equip registry_get registry_register
    equip_keeps c f id cfg h v = record {
      adapter = read-write_other f.registry c.id id _ h ∙ v.adapter;
      breaker = read-write_other f.breakers c.id id _ h ∙ v.breaker;
      limiter = read-write_other f.limiters c.id id _ h ∙ v.limiter;
      tracker = read-write_other f.trackers c.id id _ h ∙ v.tracker;
    }

    -- The carrier of the list whose configuration the maps have for `id`, after the whole loop.
    pub record Source (id : String) (cs : List (Carrier F)) (f : Fleet) : Type 0 where
      pub source : Carrier F
      pub among : OneOf source cs
      pub named : source.id ≡ id
      pub equipped : IsEquipped id (with_config_defaults source.config) f

    equip_all_kept :
        (cs : List (Carrier F)) (f : Fleet) (d : Carrier F)
        → IsEquipped d.id (with_config_defaults d.config) f
        → Source d.id (d ∷ cs) (equip_all cs f)
    unfolding equip_all
    equip_all_kept [] f d v = record { source = d; among = inl refl; named = refl; equipped = v }
    equip_all_kept (c ∷ cs) f d v = elim (Bool-cases (same_text c.id d.id)) [
      | inl same ↦
          let e = (eq_iff c.id d.id).0 same in
          let r = equip_all_kept cs (equip c f) c (equip-IsEquipped c f) in
          record {
            source = r.source;
            among = inr r.among;
            named = r.named ∙ e;
            equipped =
                subst
                  (λ id.
                    IsEquipped id (with_config_defaults r.source.config) (equip_all cs (equip c f)))
                  e r.equipped;
          }
      | inr other ↦
          let r =
            equip_all_kept cs (equip c f) d
              (equip_keeps c f d.id (with_config_defaults d.config) other v) in
          record {
            source = r.source;
            among = elim r.among [ inl e ↦ inl e | inr m ↦ inr (inr m) ];
            named = r.named;
            equipped = r.equipped;
          }
    ]

    pub equip_all_found :
        (cs : List (Carrier F)) (f : Fleet) (c : Carrier F)
        → OneOf c cs
        → Source c.id cs (equip_all cs f)
    unfolding equip_all
    equip_all_found [] f c m = absurd m
    equip_all_found (d ∷ cs) f c (inl e) =
        subst (λ (x : Carrier F). Source x.id (d ∷ cs) (equip_all cs (equip d f))) (sym e)
          (equip_all_kept cs (equip d f) d (equip-IsEquipped d f))
    equip_all_found (d ∷ cs) f c (inr m) =
        let r = equip_all_found cs (equip d f) c m in
        record { source = r.source; among = inr r.among; named = r.named; equipped = r.equipped }

    -- The thresholds are below 2 ^ 31; they may be zero or negative.
    abbrev pub Fits : Carrier F → Type 0
    Fits c =
        (pos_part c.config.failure_threshold < 2147483648)
        × (pos_part c.config.success_threshold < 2147483648)

    defaults_fit :
        (id : String) (c : Carrier F)
        → Fits c
        → IsWellFormed (Breaker.new id (breaker_config (with_config_defaults c.config)))
    unfolding with_config_defaults
    defaults_fit id c (failure, success) =
        new-IsWellFormed id (breaker_config (with_config_defaults c.config))
          (below c.config.failure_threshold 5 failure (omega arith))
          (below c.config.success_threshold 2 success (omega arith))

    -- Every carrier of the list has, after the loop, an adapter, a limiter, a tracker and a well-formed
    -- breaker under its identifier, all made from the one configuration of a carrier of the list with
    -- this identifier, with the defaults for what is zero. The thresholds of the list are below 2 ^ 31.
    pub equip_all-IsEquipped :
        (cs : List (Carrier F)) (c : Carrier F)
        → All Fits cs
        → OneOf c cs
        → (d : Carrier F) × OneOf d cs
          × (d.id ≡ c.id)
          × IsEquipped c.id (with_config_defaults d.config) (equip_all cs no_fleet)
          × IsWellFormed (Breaker.new c.id (breaker_config (with_config_defaults d.config)))
    equip_all-IsEquipped cs c fits m =
        let r = equip_all_found cs no_fleet c m in
        (
          r.source,
          r.among,
          r.named,
          r.equipped,
          defaults_fit c.id r.source (All-OneOf Fits r.source cs fits r.among),
        )
