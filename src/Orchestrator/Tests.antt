-- ===== src/Orchestrator/Tests.antt =====
-- The theorems on the parts of the fan-out at concrete inputs, and runs of the code.
use text.Mathlib.TextEquality.{eq_iff}
use riskforge.Prelude.{
  ℕ, ◌≡◌, ◌↔◌, ◌⊎◌, inr, refl, String, Bool, true, false, not, ◌&&◌, List, [], ◌∷◌, none, some,
  arith, read, write, Dict,
}
use riskforge.Prelude.Int.{pos}
use riskforge.Domain.{CoverageLine, QuoteRequest, QuoteResult, Carrier, CarrierConfig}
use riskforge.Domain.Errors.{Error}
use riskforge.Breaker.{Breaker, CbState, state_open, state_closed}
use riskforge.Orchestrator.Order.{compare_results, compare_amount, compare_text}
use riskforge.Orchestrator.Collect.{collect, first}
use riskforge.Orchestrator.Sorting.{sort_results}
use riskforge.Orchestrator.Response.{respond, IsResponse, respond_characterised}
use riskforge.Orchestrator.Eligible.{
  is_open, serves, select, filter_eligible_carriers, filter_eligible_carriers-select, CarrierRow,
  list_active, carrier_of_row,
}
use riskforge.Orchestrator.CacheKey.{scoped_key, scoped_key-injective}

abbrev quote : String → ℕ → Bool → QuoteResult
quote id cents hedged = record {
  request_id = "r1";
  carrier_id = id;
  premium = record { amount = pos cents; currency = "USD" };
  expires_at = 0;
  carrier_ref = "";
  latency = pos 0;
  is_hedged = hedged;
}

-- Beta answers first, then alpha, and beta's hedge comes last.
abbrev arrivals : List QuoteResult
arrivals = quote "beta" 900 false ∷ quote "alpha" 900 false ∷ quote "beta" 100 true ∷ []

abbrev answer : List QuoteResult
answer = quote "alpha" 900 false ∷ quote "beta" 900 false ∷ []

respond-arrivals : respond arrivals ≡ answer
unfolding respond collect sort_results compare_results compare_amount compare_text read write
respond-arrivals = refl

respond_characterised_example : IsResponse arrivals answer ↔ (answer ≡ respond arrivals)
respond_characterised_example = respond_characterised arrivals answer

arrivals-first : (id : String) → first id arrivals ≡ first id answer
unfolding first
arrivals-first id = ground (arith, eq_iff "alpha" id, eq_iff "beta" id)

abbrev config : CarrierConfig ℕ
config = record {
  timeout_hint = pos 0;
  open_timeout = pos 0;
  failure_threshold = pos 5;
  success_threshold = pos 2;
  hedge_multiplier = 2;
  ema_alpha = 0;
  ema_window_size = pos 0;
  ema_warmup_observations = pos 10;
  rate_limit = record { tokens_per_second = 10; burst = pos 5 };
  priority = pos 1;
}

abbrev carrier : String → List CoverageLine → Carrier ℕ
carrier id lines = record {
  id = id;
  code = id;
  name = id;
  is_active = true;
  capabilities = lines;
  config = config;
}

abbrev breaker : CbState → Breaker
breaker s = record {
  carrier_id = "";
  cfg = record { failure_threshold = pos 5; success_threshold = pos 2; open_timeout = pos 30 };
  metrics = [];
  state = s;
  failures = 0;
  successes = 0;
  half_open_in_flight = 0;
  opened_at = 0;
}

abbrev breakers : Dict Breaker
breakers =
    record { key = "alpha"; value = breaker state_open }
    ∷ record { key = "beta"; value = breaker state_closed }
    ∷ []

abbrev carriers : List (Carrier ℕ)
carriers =
    carrier "alpha" ("auto" ∷ [])
    ∷ carrier "beta" ("homeowners" ∷ "auto" ∷ [])
    ∷ carrier "gamma" ("umbrella" ∷ [])
    ∷ carrier "delta" ("auto" ∷ [])
    ∷ []

-- Alpha is Open, gamma prices another line, and delta has no breaker.
eligible_carriers :
    filter_eligible_carriers carriers breakers ("auto" ∷ [])
    ≡ carrier "beta" ("homeowners" ∷ "auto" ∷ []) ∷ carrier "delta" ("auto" ∷ []) ∷ []
unfolding filter_eligible_carriers read write is_open
eligible_carriers = refl

filter_eligible_carriers-select_example :
    filter_eligible_carriers carriers breakers ("auto" ∷ [])
    ≡ select (λ c. not (is_open (read breakers c.id)) && serves ("auto" ∷ []) c) carriers
filter_eligible_carriers-select_example =
    filter_eligible_carriers-select carriers breakers ("auto" ∷ [])

abbrev rows : List (Error ⊎ CarrierRow ℕ)
rows =
    inr (record { id = "alpha"; name = "Alpha"; code = "A"; config = some config })
    ∷ inr (record { id = "beta"; name = "Beta"; code = "B"; config = none })
    ∷ []

abbrev loaded : List (Carrier ℕ)
loaded =
    carrier_of_row config
      (record { id = "alpha"; name = "Alpha"; code = "A"; config = some config })
    ∷ carrier_of_row config (record { id = "beta"; name = "Beta"; code = "B"; config = none })
    ∷ []

rows-loaded : list_active config rows ≡ inr loaded
unfolding list_active
rows-loaded = refl

abbrev request : String → String → QuoteRequest ℕ
request client id = record {
  request_id = id;
  client_id = client;
  coverage_lines = "auto" ∷ [];
  state = "";
  class_code = "";
  estimated_premium = 0;
  timeout = pos 0;
}

scoped_key-injective_example :
    (scoped_key (request "k1" "a:b") ≡ scoped_key (request "k2" "a:b"))
    ↔ ((◌≡◌ {A = String} "k1" "k2") × (◌≡◌ {A = String} "a:b" "a:b"))
scoped_key-injective_example =
    scoped_key-injective (request "k1" "a:b") (request "k2" "a:b") (λ e. cc) (λ e. cc)
      ((λ e. omega arith), ((λ e. omega arith), tt)) ((λ e. omega arith), ((λ e. omega arith), tt))
