-- ===== src/Adapter/Tests.antt =====
-- The theorems on the adapters at concrete replies.
use riskforge.Prelude.{ℕ, ◌<◌, ◌≡◌, ◌⊎◌, refl, [], ◌∷◌, inl, inr, arith}
use riskforge.Prelude.Int.{pos}
use riskforge.Domain.Errors.{Error, other, wrap}
use riskforge.Adapter.Http.{HttpCarrierConfig, Reply, answered, do_once, with_defaults, post}
use riskforge.Adapter.Retry.{Net, net, send_next, wait_all, post_exhausted}
use riskforge.Adapter.Registry.{DeltaResponse}
use riskforge.Adapter.Delta.{delta_function, delta_function-IsDeltaQuote}
use riskforge.Domain.{QuoteRequest, QuoteResult}

abbrev bare : HttpCarrierConfig
bare = record {
  base_url = "https://carrier.test";
  api_key = "";
  max_retries = pos 0;
  retry_delay = pos 7;
  timeout = pos 0;
}

abbrev twice : HttpCarrierConfig
twice = record bare { max_retries = pos 2 }

module _ {Out : Type 0} where
  abbrev down : Reply Out
  down = answered 503 "down" (inl (other "no response"))

abbrev fine : Reply ℕ
fine = answered 200 "" (inr 42)

abbrev offer : DeltaResponse
offer = record { quote_id = "q-7"; premium_cents = pos 900; valid_for_seconds = pos 0 }

abbrev request : QuoteRequest ℕ
request = record {
  request_id = "r";
  client_id = "c";
  coverage_lines = "auto" ∷ [];
  state = "";
  class_code = "";
  estimated_premium = 0;
  timeout = pos 0;
}

-- Every request takes a nanosecond.
abbrev clock : Net DeltaResponse → ℕ
clock w = w.sent

abbrev asked : Net DeltaResponse × (Error ⊎ QuoteResult)
asked =
    delta_function (λ d. send_next) wait_all clock bare request
      (net (down ∷ down ∷ answered 200 "" (inr offer) ∷ down ∷ []) [] 0)

-- Two retries of the three that the default allows.
delta_function-IsDeltaQuote_example :
    (asked.0 ≡ net (down ∷ []) (7 ∷ 14 ∷ []) 3)
    × ((a : QuoteResult) × (asked.1 ≡ inr a)
        × (a.carrier_id ≡ "delta")
        × (a.carrier_ref ≡ "q-7")
        × (a.premium.amount ≡ pos 900)
        × (3 < a.expires_at))
unfolding do_once with_defaults
delta_function-IsDeltaQuote_example =
    delta_function-IsDeltaQuote clock bare request (down ∷ down ∷ []) (answered 200 "" (inr offer))
      (down ∷ []) (refl, (refl, tt)) refl (omega arith)

post_exhausted_example :
    post send_next wait_all twice (net (down ∷ down ∷ down ∷ fine ∷ []) [] 0)
    ≡ (net (fine ∷ []) (7 ∷ 14 ∷ []) 3, inl (wrap "all attempts failed" (other "down")))
unfolding do_once
post_exhausted_example =
    post_exhausted twice down (down ∷ down ∷ []) (fine ∷ []) (refl, (refl, (refl, tt))) refl
