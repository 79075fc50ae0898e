-- ===== src/Service/Tests.antt =====
-- The theorems on the whole service at concrete inputs.
use riskforge.Prelude.{
  leb, true, ◌+◌, ℕ, ◌≡◌, ◌↔◌, refl, List, [], ◌∷◌, none, some, inl, inr, arith, OneOf,
}
use riskforge.Prelude.Int.{pos}
use riskforge.Domain.{CarrierConfig, Carrier, QuoteRequest, QuoteResult}
use riskforge.Orchestrator.Quotes.{Gather, get_quotes}
use riskforge.Orchestrator.CacheKey.{scoped_key}
use riskforge.Orchestrator.Collect.{collect, Distinct}
use riskforge.Orchestrator.Sorting.{sort_results}
use riskforge.Orchestrator.Eligible.{filter_eligible_carriers, is_open}
use riskforge.Prelude.{read, write}
use riskforge.Orchestrator.Response.{respond}
use riskforge.Spanner.Quotes.{stored, quote_row, save, find_by_request_id}
use riskforge.Spanner.Slot.{Slot, slot_client, sample_quote, empty_slot}
use riskforge.Middleware.Auth.{Limiting, HttpRequest}
use riskforge.Middleware.Writer.{response}
use riskforge.Middleware.Chain.{Handler, Server, security_header_list, serve}
use riskforge.Middleware.Chain.Verdict.{LeavesHeaders, HasAll, start}
use riskforge.Handler.Post.{malformed}
use riskforge.Handler.Health.{handle_post_quotes}
use riskforge.Service.Server.{Outside, mux, IsServerStatus, serve_post_quotes}
use riskforge.Service.Cache.{ask, ask_again}

abbrev config : CarrierConfig ℕ
config = record {
  timeout_hint = pos 0;
  open_timeout = pos 0;
  failure_threshold = pos 5;
  success_threshold = pos 2;
  hedge_multiplier = 2;
  ema_alpha = 0;
  ema_window_size = pos 0;
  ema_warmup_observations = pos 10;
  rate_limit = record { tokens_per_second = 10; burst = pos 5 };
  priority = pos 1;
}

abbrev alpha : Carrier ℕ
alpha = record {
  id = "alpha";
  code = "";
  name = "Alpha";
  is_active = true;
  capabilities = "auto" ∷ [];
  config = config;
}

abbrev request : QuoteRequest ℕ
request = record {
  request_id = "r";
  client_id = "c";
  coverage_lines = "auto" ∷ [];
  state = "";
  class_code = "";
  estimated_premium = 0;
  timeout = pos 0;
}

-- Alpha answers after five nanoseconds.
abbrev gather : Gather ℕ Slot
gather cs timeout req w = (record w { now = w.now + 5 }, sample_quote ∷ [])

-- The table as the first request has left it, at another time.
abbrev slot_later : Slot
slot_later = record (ask slot_client gather (alpha ∷ []) [] request empty_slot).0 { now = 60 }

ask_again_example :
    (cached : List QuoteResult) × (ask slot_client gather (alpha ∷ []) [] request slot_later
      ≡ (slot_later, inr cached))
    × Distinct cached
    × ((a : QuoteResult)
        → OneOf a cached ↔ ((x : QuoteResult) × OneOf x (sample_quote ∷ []) × (a ≡ stored "c:r" x)))
unfolding get_quotes scoped_key respond save find_by_request_id quote_row filter_eligible_carriers
    is_open read write sort_results collect
ask_again_example =
    ask_again slot_client gather (alpha ∷ []) [] request empty_slot slot_later alpha [] sample_quote
      [] (quote_row "c:r" sample_quote ∷ []) refl refl refl refl refl (λ cid. refl) (λ cid. refl)
      (omega arith) refl (omega arith) (λ x m. elim m [ inl e ↦ ground arith | inr n ↦ absurd n ])

abbrev counting : Limiting
counting = record {
  Limiter = ℕ;
  fresh = 0;
  is_spent = λ now n. leb 2 n;
  allow = λ now n. (n + 1, true);
}

abbrev plain_mux : Handler ℕ
plain_mux r client e = e

plain_mux-LeavesHeaders : LeavesHeaders plain_mux
plain_mux-LeavesHeaders r client e name fresh listed = rw fresh refl

-- Every path is that of POST /quotes, and no body decodes.
abbrev outside : Outside ℕ
outside = record {
  endpoint_of = λ r. some handle_post_quotes;
  decode = λ r. malformed;
  header_id = λ r. "";
  encode = λ a. "{}";
  serve_metrics = plain_mux;
  not_found = plain_mux;
  ping = none;
}

abbrev nobody : Gather ℕ ℕ
nobody cs timeout req w = (w, [])

abbrev post : HttpRequest
post = record {
  path = "/quotes";
  remote_addr = "10.0.0.1:99";
  remote_host = "10.0.0.1";
  authorization = "Bearer short";
}

abbrev whole_mux : Handler ℕ
whole_mux = mux outside none nobody [] [] 0 (pos 5)

abbrev answered : Server counting ℕ
answered = serve counting ℕ ("short" ∷ []) ("/healthz" ∷ []) 100 whole_mux 5 3 post none (
    start counting ("short" ∷ []) ("/healthz" ∷ []) 100 whole_mux
      (record { ips = []; last_seen = [] }) 0 [])

serve_post_quotes_example :
    IsServerStatus (response answered.exchange.writer).status
    × HasAll security_header_list (response answered.exchange.writer).header
    × (answered.audit
        ≡ record {
          path = "/quotes";
          status = (response answered.exchange.writer).status;
          client_id = "";
        }
          ∷ [])
serve_post_quotes_example =
    serve_post_quotes outside none nobody [] [] 0 (pos 5) plain_mux-LeavesHeaders
      plain_mux-LeavesHeaders counting ("short" ∷ []) ("/healthz" ∷ []) 100 5 3 post
      (record { ips = []; last_seen = [] }) 0 [] refl
