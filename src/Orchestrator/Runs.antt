-- ===== src/Orchestrator/Runs.antt =====
-- The theorems on `callCarrier` and `GetQuotes` at concrete inputs, with floats that are the natural
-- numbers.
use riskforge.Prelude.{
  ℕ, ◌+◌, ◌-◌, ◌*◌, ◌/◌, ◌≡◌, String, true, false, [], ◌∷◌, Option, none, some, ◌⊎◌, inl, inr, leb,
  arith, read, write,
}
use riskforge.Prelude.Int.{pos, pos_part}
use riskforge.Prelude.Float.{Float}
use riskforge.Domain.{Carrier, QuoteRequest, QuoteResult}
use riskforge.Orchestrator.Collect.{collect}
use riskforge.Orchestrator.Sorting.{sort_results}
use riskforge.Orchestrator.Eligible.{filter_eligible_carriers, is_open}
use riskforge.Orchestrator.Response.{respond}
use riskforge.Orchestrator.Order.{compare_results, compare_amount, compare_text}
use riskforge.Orchestrator.Outcomes.{Outcome, get_quotes-Outcome}
use riskforge.Domain.Errors.{Error, sentinel, err_carrier_unavailable}
use riskforge.Breaker.{Breaker, state_open}
use riskforge.Breaker.Spec.{IsWellFormed, view}
use riskforge.Orchestrator.Call.{
  Moments, CallState, record_quote, seen, call_carrier, call_carrier-spec_call,
}
use riskforge.Orchestrator.Quotes.{QuoteRepository, Gather, get_quotes}

abbrev naturals : Float
naturals = record {
  F = ℕ;
  le = leb;
  add = ◌+◌;
  sub = ◌-◌;
  mul = ◌*◌;
  div = ◌/◌;
  of_int = pos_part;
  tenth = 0;
  max_float = 1_000_000_000;
}

abbrev result : String → ℕ → QuoteResult
result id cents = record {
  request_id = "";
  carrier_id = id;
  premium = record { amount = pos cents; currency = "USD" };
  expires_at = 0;
  carrier_ref = "";
  latency = pos 0;
  is_hedged = false;
}

abbrev request : QuoteRequest ℕ
request = record {
  request_id = "r1";
  client_id = "k1";
  coverage_lines = "auto" ∷ [];
  state = "";
  class_code = "";
  estimated_premium = 0;
  timeout = pos 0;
}

abbrev breaker : Breaker
breaker = record {
  carrier_id = "alpha";
  cfg = record { failure_threshold = pos 2; success_threshold = pos 2; open_timeout = pos 30 };
  metrics = [];
  state = state_open;
  failures = 2;
  successes = 0;
  half_open_in_flight = 0;
  opened_at = 10;
}

breaker-IsWellFormed : IsWellFormed breaker
breaker-IsWellFormed = omega arith

-- The world counts the calls of the adapter.
abbrev adapter : QuoteRequest ℕ → ℕ → ℕ × (Error ⊎ QuoteResult)
adapter req n = (n + 1, inr (result "alpha" 900))

abbrev token : ℕ → ℕ × Option Error
token n = (n, none)

abbrev moments : ℕ → Moments
moments t = record { asked = t; stamp = t + 1; answered = pos 7; failed = pos 9; delivered = true }

abbrev start : CallState naturals ℕ
start = record {
  world = 0;
  tracker = record {
    carrier_id = "alpha";
    alpha = 0;
    multiplier = 3;
    warmup = pos 2;
    state = record { p95 = 100; observations = 0 };
    gauge = [];
  };
  metrics = [];
  results = [];
}

call_carrier-spec_call_example :
    (seen naturals adapter request
        (call_carrier naturals (some adapter) token request "alpha" (moments 20) breaker start)
      ≡ (view breaker, record_quote naturals "alpha" (pos 9) "circuit_open" start))
    × IsWellFormed
        (call_carrier naturals (some adapter) token request "alpha" (moments 20) breaker start).0
call_carrier-spec_call_example =
    call_carrier-spec_call naturals adapter request token "alpha" (moments 20) breaker start
      breaker-IsWellFormed

-- The repository is out of order, and beta's quote arrives first.
abbrev broken : QuoteRepository ℕ
broken = record {
  find_by_request_id = λ key n. (n + 1, inl (sentinel err_carrier_unavailable));
  save = λ key qs n. (n + 1, some (sentinel err_carrier_unavailable));
}

abbrev gather : Gather ℕ ℕ
gather cs timeout req n = (n, result "beta" 900 ∷ result "alpha" 900 ∷ [])

abbrev alpha : Carrier ℕ
alpha = record {
  id = "alpha";
  code = "";
  name = "Alpha";
  is_active = true;
  capabilities = "auto" ∷ [];
  config = record {
    timeout_hint = pos 0;
    open_timeout = pos 0;
    failure_threshold = pos 5;
    success_threshold = pos 2;
    hedge_multiplier = 2;
    ema_alpha = 0;
    ema_window_size = pos 0;
    ema_warmup_observations = pos 10;
    rate_limit = record { tokens_per_second = 10; burst = pos 5 };
    priority = pos 1;
  };
}

-- The lookup and the save fail, and the quotes are sorted by carrier.
get_quotes-Outcome_example :
    Outcome
      (some broken)
      gather
      (alpha ∷ [])
      []
      request
      0
      (2, inr (result "alpha" 900 ∷ result "beta" 900 ∷ []))
unfolding get_quotes respond filter_eligible_carriers is_open read write sort_results collect
    compare_results compare_amount compare_text
get_quotes-Outcome_example = get_quotes-Outcome (some broken) gather (alpha ∷ []) [] request 0
