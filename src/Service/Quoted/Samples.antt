-- ===== src/Service/Quoted/Samples.antt =====
-- A request to POST /quotes that is let through, at concrete values.
use riskforge.Prelude.{◌+◌, ℕ, ◌≡◌, refl, String, [], ◌∷◌, none, some, read, write, true, leb}
use riskforge.Prelude.Int.{pos}
use riskforge.Domain.{Carrier}
use riskforge.Orchestrator.Quotes.{Gather, get_quotes}
use riskforge.Orchestrator.Collect.{collect}
use riskforge.Orchestrator.Sorting.{sort_results}
use riskforge.Orchestrator.Eligible.{filter_eligible_carriers, is_open}
use riskforge.Orchestrator.Response.{respond}
use riskforge.Spanner.Slot.{sample_quote}
use riskforge.Handler.Validate.{
  QuoteBody, build_domain_request, validate_quote_request, IsValid, is_valid_coverage_line,
  has_invalid_character, unknown_line, validate_timeout, validate_quote_request-IsValid,
}
use riskforge.Handler.Post.{Answer, failure, quotes, body}
use riskforge.Handler.Health.{handle_post_quotes}
use riskforge.Middleware.Auth.{Limiting, HttpRequest, is_exhausted, without_prefix}
use riskforge.Middleware.Writer.{response}
use riskforge.Middleware.Chain.{Handler, Server, security_header_list, serve}
use riskforge.Middleware.Chain.Verdict.{LeavesHeaders, HasAll, start}
use riskforge.Service.Server.{Outside, mux}
use riskforge.Service.Quoted.{IsLetThrough, serve_valid_quotes}

abbrev alpha : Carrier ℕ
alpha = record {
  id = "alpha";
  code = "";
  name = "Alpha";
  is_active = true;
  capabilities = "auto" ∷ [];
  config = record {
    timeout_hint = pos 0;
    open_timeout = pos 0;
    failure_threshold = pos 5;
    success_threshold = pos 2;
    hedge_multiplier = 2;
    ema_alpha = 0;
    ema_window_size = pos 0;
    ema_warmup_observations = pos 10;
    rate_limit = record { tokens_per_second = 10; burst = pos 5 };
    priority = pos 1;
  };
}

-- The world counts the fan-outs.
abbrev gather : Gather ℕ ℕ
gather cs timeout req w = (w + 1, sample_quote ∷ [])

abbrev auto_body : QuoteBody
auto_body = record { request_id = "r"; coverage_lines = "auto" ∷ []; timeout_ms = pos 250 }

auto_body-IsValid : IsValid auto_body
unfolding validate_quote_request has_invalid_character unknown_line is_valid_coverage_line
    validate_timeout
auto_body-IsValid = (validate_quote_request-IsValid auto_body).0 refl

abbrev counting : Limiting
counting = record {
  Limiter = ℕ;
  fresh = 0;
  is_spent = λ now n. leb 2 n;
  allow = λ now n. (n + 1, true);
}

abbrev same_exchange : Handler ℕ
same_exchange r client e = e

same_exchange-LeavesHeaders : LeavesHeaders same_exchange
same_exchange-LeavesHeaders r client e name fresh listed = rw fresh refl

abbrev encoded : Answer → String
encoded (failure reason) = "failure"
encoded (quotes request_id items duration) = request_id

abbrev outside : Outside ℕ
outside = record {
  endpoint_of = λ r. some handle_post_quotes;
  decode = λ r. body auto_body;
  header_id = λ r. "h";
  encode = encoded;
  serve_metrics = same_exchange;
  not_found = same_exchange;
  ping = none;
}

abbrev post : HttpRequest
post = record {
  path = "/quotes";
  remote_addr = "10.0.0.1:99";
  remote_host = "10.0.0.1";
  authorization = "Bearer short";
}

abbrev answered : Server counting ℕ
answered =
    serve counting ℕ ("short" ∷ []) ("/healthz" ∷ []) 100
      (mux outside none gather (alpha ∷ []) [] 0 (pos 5)) 5 3 post none
      (start counting ("short" ∷ []) ("/healthz" ∷ []) 100
        (mux outside none gather (alpha ∷ []) [] 0 (pos 5)) (record { ips = []; last_seen = [] }) 0
        [])

post-IsLetThrough :
    IsLetThrough counting
      ("short" ∷ [])
      ("/healthz" ∷ [])
      100
      5
      3
      post
      (record { ips = []; last_seen = [] })
      "short"
unfolding is_exhausted read without_prefix
post-IsLetThrough = record {
  asks_key = refl;
  budget = refl;
  presents = refl;
  known = refl;
  free_place = refl;
}

-- One fan-out, status 200, and the identifier of the body.
serve_valid_quotes_example :
    (answered.exchange.world ≡ 1)
    × ((response answered.exchange.writer).status ≡ 200)
    × (answered.exchange.writer.body ≡ "r" ∷ [])
    × HasAll security_header_list (response answered.exchange.writer).header
    × (answered.audit
        ≡ record {
          path = "/quotes";
          status = (response answered.exchange.writer).status;
          client_id = "";
        }
          ∷ [])
unfolding get_quotes read write build_domain_request respond filter_eligible_carriers is_open
    sort_results collect
serve_valid_quotes_example =
    serve_valid_quotes outside none gather (alpha ∷ []) [] 0 (pos 5) same_exchange-LeavesHeaders
      same_exchange-LeavesHeaders counting ("short" ∷ []) ("/healthz" ∷ []) 100 5 3 post
      (record { ips = []; last_seen = [] }) 0 [] "short" auto_body refl post-IsLetThrough refl
      auto_body-IsValid
