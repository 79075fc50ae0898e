-- ===== src/Orchestrator/Sharing/Samples.antt =====
-- Two overlapping calls of `GetQuotes` with one key, over a cache that keeps what was saved last.
use text.Mathlib.Text.{◌==◌ as same_text}
use riskforge.Prelude.{
  ℕ, ◌≡◌, refl, String, true, false, List, [], ◌∷◌, Option, none, some, inr, Dict, read, write,
  if◌then◌else◌, update,
}
use riskforge.Prelude.Int.{pos}
use riskforge.Domain.{QuoteRequest, QuoteResult, Carrier}
use riskforge.Breaker.{Breaker}
use riskforge.Orchestrator.Collect.{collect}
use riskforge.Orchestrator.Sorting.{sort_results}
use riskforge.Orchestrator.Response.{respond}
use riskforge.Orchestrator.Eligible.{filter_eligible_carriers, is_open}
use riskforge.Orchestrator.CacheKey.{scoped_key}
use riskforge.Orchestrator.Quotes.{QuoteRepository, Gather, look_up, fan_out}
use riskforge.Orchestrator.Sharing.{
  FlightGroup, missed, leading, following, answered, Sharing, at_first, looks_up, takes_off, joins,
  lands, shares, SharingSteps, none_yet, step,
}
use riskforge.Orchestrator.Sharing.Flights.{IsFlying, HasFlown, one_flight}
use riskforge.Orchestrator.Sharing.Answers.{IsAccounted, answered-IsAccounted}
use riskforge.Orchestrator.Sharing.Progress.{CanReturn, calls-CanReturn, fans_out_twice}

-- The runners as a function of the key.
abbrev by_key : FlightGroup
by_key = record {
  Flights = String → Option ℕ;
  no_flights = λ k. none;
  runner = λ fs k. fs k;
  enter = λ i k fs wanted. if same_text k wanted then some i else fs wanted;
  leave = λ k fs wanted. if same_text k wanted then none else fs wanted;
  no_runner = λ k. refl;
  runner-enter = λ i k wanted fs free. refl;
  runner-leave = λ k wanted fs. refl;
}

abbrev Table : Type 0
Table = Option (List QuoteResult)

abbrev table : QuoteRepository Table
table = record { find_by_request_id = λ k w. (w, inr w); save = λ k quotes w. (some quotes, none) }

abbrev quote : QuoteResult
quote = record {
  request_id = "r";
  carrier_id = "alpha";
  premium = record { amount = pos 900; currency = "USD" };
  carrier_ref = "A-1";
  expires_at = 90;
  is_hedged = false;
  latency = pos 7;
}

abbrev gather : Gather ℕ Table
gather cs timeout req w = (w, quote ∷ [])

abbrev alpha : Carrier ℕ
alpha = record {
  id = "alpha";
  code = "";
  name = "Alpha";
  is_active = true;
  capabilities = "auto" ∷ [];
  config = record {
    timeout_hint = pos 0;
    open_timeout = pos 0;
    failure_threshold = pos 5;
    success_threshold = pos 2;
    hedge_multiplier = 2;
    ema_alpha = 0;
    ema_window_size = pos 0;
    ema_warmup_observations = pos 10;
    rate_limit = record { tokens_per_second = 10; burst = pos 5 };
    priority = pos 1;
  };
}

abbrev no_breakers : Table → Dict Breaker
no_breakers w = []

abbrev request : ℕ → QuoteRequest ℕ
request i = record {
  request_id = "r";
  client_id = "c";
  coverage_lines = "auto" ∷ [];
  state = "";
  class_code = "";
  estimated_premium = 0;
  timeout = pos 0;
}

abbrev carriers : List (Carrier ℕ)
carriers = alpha ∷ []

abbrev State : Type 0
State = Sharing (String → Option ℕ) Table

abbrev begin : State
begin = at_first (some table) gather carriers no_breakers request by_key none

abbrev Reached : ℕ → State → Type 0
Reached n s = SharingSteps (some table) gather carriers no_breakers request by_key begin n s

-- Both calls have missed.
abbrev both_missed : State
both_missed = record begin { pc = update (update begin.pc 0 missed) 1 missed }

-- The second one waits for the first.
abbrev waiting : State
waiting = record both_missed {
  pc = update (update both_missed.pc 0 leading) 1 (following 0);
  flights = λ k. if same_text "c:r" k then some 0 else none;
  waited = update both_missed.waited 1 (some 0);
}

-- Both have the quotes that the first one has gathered.
abbrev shared : State
shared = record waiting {
  pc = update (update waiting.pc 0 (answered (inr (quote ∷ [])))) 1 (answered (inr (quote ∷ [])));
  flights = λ k. if same_text "c:r" k then none else waiting.flights k;
  world = some (quote ∷ []);
  runs = record { caller = 0; before = none } ∷ [];
}

to_both_missed : Reached 2 both_missed
unfolding look_up scoped_key
to_both_missed = step (step none_yet (looks_up 0 refl)) (looks_up 1 refl)

to_waiting : Reached 4 waiting
unfolding look_up scoped_key
to_waiting = step (step to_both_missed (takes_off 0 refl refl refl)) (joins 1 0 refl refl refl)

to_shared : Reached 6 shared
unfolding look_up scoped_key fan_out respond collect sort_results filter_eligible_carriers is_open
    read write
to_shared = step (step to_waiting (lands 0 refl)) (shares 1 0 (inr (quote ∷ [])) refl refl)

one_flight_example :
    ((i j : ℕ)
      → IsFlying (some table) gather carriers no_breakers request by_key (waiting.pc i)
      → IsFlying (some table) gather carriers no_breakers request by_key (waiting.pc j)
      → same_text (request i).request_id "" ≡ false
      → same_text (request j).request_id "" ≡ false
      → scoped_key (request i) ≡ scoped_key (request j)
      → i ≡ j)
    × ((i j : ℕ)
        → waiting.pc i ≡ following j
        → (scoped_key (request j) ≡ scoped_key (request i))
          × HasFlown (some table) gather carriers no_breakers request by_key (waiting.pc j))
one_flight_example =
    one_flight (some table) gather carriers no_breakers request by_key none 4 waiting to_waiting

answered-IsAccounted_example :
    IsAccounted
      (some table)
      gather
      carriers
      no_breakers
      request
      by_key
      []
      (record { caller = 0; before = none } ∷ [])
      shared.waited
      1
      (inr (quote ∷ []))
answered-IsAccounted_example =
    answered-IsAccounted (some table) gather carriers no_breakers request by_key none 6 shared 1
      (inr (quote ∷ [])) to_shared refl

calls-CanReturn_example :
    CanReturn (some table) gather carriers no_breakers request by_key 1 4 waiting
calls-CanReturn_example =
    calls-CanReturn (some table) gather carriers no_breakers request by_key none 4 waiting 1
      to_waiting

fans_out_twice_example :
    (t : State) × SharingSteps
      (some table)
      gather
      carriers
      no_breakers
      request
      by_key
      both_missed
      4
      t
    × (t.pc 0 ≡ answered (inr (quote ∷ [])))
    × (t.runs
        ≡ record { caller = 1; before = some (quote ∷ []) }
          ∷ record { caller = 0; before = none }
          ∷ [])
unfolding scoped_key fan_out respond collect sort_results filter_eligible_carriers is_open read
    write
fans_out_twice_example =
    fans_out_twice (some table) gather carriers no_breakers request by_key both_missed 0 1
      (λ e. cc e) refl refl refl refl refl refl
