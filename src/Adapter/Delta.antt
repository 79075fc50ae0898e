-- ===== src/Adapter/Delta.antt =====
-- Delta over HTTP: `NewHTTPCarrier` of internal/adapter/http_carrier.go with `deltaHTTPClient.Call` and
-- `NewDeltaCarrier` of internal/adapter/delta_carrier.go. Encoding the request is the libraries' part.
use riskforge.Prelude.{
  ℕ, ◌+◌, ◌≤◌, ◌≡◌, ap, subst, ◌∙◌, String, true, false, List, [], ◌∷◌, ◌++◌, Option, ◌⊎◌, length,
  All,
}
use riskforge.Prelude.Int.{pos_part}
use riskforge.Domain.{QuoteRequest}
use riskforge.Domain.Errors.{Error}
use riskforge.Adapter.Http.{HttpCarrierConfig, with_defaults, Reply, post}
use riskforge.Adapter.Registry.{
  AdapterFunc, DeltaRequest, DeltaResponse, register_delta_carrier, IsDeltaQuote,
  register_delta_carrier-IsDeltaQuote,
}
use riskforge.Adapter.Retry.{
  Net, net, backoff, send_next, wait_all, is_transient, answer_to, post_decisive,
}

pub record HttpCarrier : Type 0 where
  pub id : String
  pub cfg : HttpCarrierConfig

unfoldable pub new_http_carrier : String → HttpCarrierConfig → HttpCarrier
new_http_carrier id cfg = record { id = id; cfg = with_defaults cfg }

unfoldable pub new_delta_carrier : HttpCarrierConfig → HttpCarrier
unfolding new_http_carrier
new_delta_carrier cfg = new_http_carrier "delta" cfg

module _ {W : Type 0} (send : DeltaRequest → W → W × Reply DeltaResponse)
    (wait : ℕ → W → W × Option Error) where
  -- `deltaHTTPClient.Call`: the decoder fills an empty response.
  unfoldable pub delta_call : HttpCarrier → DeltaRequest → W → W × (Error ⊎ DeltaResponse)
  delta_call carrier req w = post (send req) wait carrier.cfg w

  -- What the registry holds for Delta under this configuration.
  unfoldable pub delta_function : {F : Type 0} → (W → ℕ) → HttpCarrierConfig → AdapterFunc F W
  unfolding new_delta_carrier delta_call
  delta_function clock cfg = register_delta_carrier clock (delta_call (new_delta_carrier cfg))

module _ {F : Type 0} (clock : Net DeltaResponse → ℕ) (cfg : HttpCarrierConfig) where
  -- Over a network that gives one reply after another and a context that is not cancelled, if at most as many replies
  -- as the resolved configuration allows retries are transient failures and the next one is not, then a quote
  -- asked of Delta costs one request for each of them and no more, with the doubling delays between them. If the last
  -- of them is an answer that was decoded, the result is a quote of the carrier "delta" with its reference and
  -- premium, which is not yet expired; otherwise it is the error that the last of them says.
  pub delta_function-IsDeltaQuote :
      (req : QuoteRequest F) (ts : List (Reply DeltaResponse)) (r : Reply DeltaResponse)
      (q : List (Reply DeltaResponse))
      → All (λ t. is_transient t ≡ true) ts
      → is_transient r ≡ false
      → length ts ≤ pos_part (with_defaults cfg).max_retries
      → (let (w, result) =
            delta_function (λ d. send_next) wait_all clock cfg req (net (ts ++ (r ∷ q)) [] 0) in
          let left =
            net q
              (backoff (pos_part (with_defaults cfg).retry_delay) (length ts))
              (length ts + 1) in
          (w ≡ left) × IsDeltaQuote clock left (answer_to r) result)
  unfolding delta_function
  delta_function-IsDeltaQuote req ts r q failed decisive enough =
      let called = post_decisive (with_defaults cfg) ts r q failed decisive enough in
      let (moved, quoted) =
        register_delta_carrier-IsDeltaQuote clock
          (delta_call (λ d. send_next) wait_all (new_delta_carrier cfg)) req
          (net (ts ++ (r ∷ q)) [] 0) in
      (
        moved ∙ ap (λ p. p.0) called,
        subst
            (λ p.
              IsDeltaQuote clock p.0 p.1
                (delta_function (λ d. send_next) wait_all clock cfg req
                  (net (ts ++ (r ∷ q)) [] 0)).1)
            called quoted,
      )
