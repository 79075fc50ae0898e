-- ===== src/Adapter/Registry.antt =====
-- `Registry` and `Register` of internal/adapter/adapter.go, and the Delta adapter of
-- internal/adapter/delta_carrier.go. A call acts on a state `W` of its own, which `clock` reads the
-- time from, in nanoseconds; a validity in seconds does not overflow a duration.
use text.Mathlib.Text.{◌==◌ as same_text}
use riskforge.Prelude.{
  false, subst, sym, ℕ, ◌+◌, ◌*◌, ◌<◌, ◌≡◌, refl, String, Option, some, ◌⊎◌, inl, inr, List, Dict,
  read, write, read-write, if◌then◌else◌, arith,
}
use riskforge.Prelude.Int.{ℤ, pos, negsuc, leb_ℤ, pos_part}
use riskforge.Domain.{QuoteRequest, QuoteResult}
use riskforge.Domain.Errors.{Error}

abbrev pub AdapterFunc : Type 0 → Type 0 → Type 0
AdapterFunc F W = QuoteRequest F → W → W × (Error ⊎ QuoteResult)

pub record Adapter (F Req Resp W : Type 0) : Type 0 where
  pub to_carrier_request : QuoteRequest F → Error ⊎ Req
  pub from_carrier_response : W → Resp → String → Error ⊎ QuoteResult

-- The map of the struct `Registry`.
abbrev pub AdapterRegistry : Type 0 → Type 0 → Type 0
AdapterRegistry F W = Dict (AdapterFunc F W)

module _ {F W : Type 0} where
  -- `Register`: the pipeline of conversion, call and conversion.
  unfoldable pub register :
      {Req Resp : Type 0}
      → Adapter F Req Resp W
      → (Req → W → W × (Error ⊎ Resp))
      → String
      → AdapterFunc F W
  register a call carrier_id req w = elim (a.to_carrier_request req) [
    | inl e ↦ (w, inl e)
    | inr native_req ↦
        let (w', answer) = call native_req w in
        elim answer [
          | inl e ↦ (w', inl e)
          | inr native_resp ↦ (w', a.from_carrier_response w' native_resp carrier_id)
        ]
  ]

  -- `Registry.Register` and `Registry.Get`.
  unfoldable pub registry_register :
      String → AdapterFunc F W → AdapterRegistry F W → AdapterRegistry F W
  registry_register carrier_id fn r = write r carrier_id fn

  unfoldable pub registry_get : String → AdapterRegistry F W → Option (AdapterFunc F W)
  registry_get carrier_id r = read r carrier_id

pub record DeltaRequest : Type 0 where
  pub request_id : String
  pub lines : List String

pub record DeltaResponse : Type 0 where
  pub quote_id : String
  pub premium_cents : ℤ
  pub valid_for_seconds : ℤ

abbrev pub seconds : ℤ → ℤ
seconds (pos n) = pos (n * 1_000_000_000)
seconds (negsuc n) = negsuc (n * 1_000_000_000 + 999_999_999)

abbrev pub five_minutes : ℤ
five_minutes = pos 300_000_000_000

unfoldable pub delta_request : {F : Type 0} → QuoteRequest F → DeltaRequest
delta_request q = record { request_id = q.request_id; lines = q.coverage_lines }

module _ {W : Type 0} (clock : W → ℕ) where
  unfoldable pub delta_result : W → DeltaResponse → String → QuoteResult
  delta_result w r carrier_id = record {
    request_id = "";
    carrier_id = carrier_id;
    premium = record { amount = r.premium_cents; currency = "USD" };
    expires_at =
        clock w
        + pos_part (
            if leb_ℤ (seconds r.valid_for_seconds) (pos 0)
            then five_minutes
            else seconds r.valid_for_seconds);
    carrier_ref = r.quote_id;
    latency = pos 0;
    is_hedged = false;
  }

  unfoldable pub delta_adapter : {F : Type 0} → Adapter F DeltaRequest DeltaResponse W
  unfolding delta_request delta_result
  delta_adapter = record {
    to_carrier_request = λ q. inr (delta_request q);
    from_carrier_response = λ w r carrier_id. inr (delta_result w r carrier_id);
  }

  -- `post` is `HTTPCarrier.Post` at "/v1/quotes".
  unfoldable pub register_delta_carrier :
      {F : Type 0} → (DeltaRequest → W → W × (Error ⊎ DeltaResponse)) → AdapterFunc F W
  unfolding register delta_adapter
  register_delta_carrier post = register delta_adapter post "delta"

  -- What the answer of Delta's interface is turned into.
  abbrev pub IsDeltaQuote : W → Error ⊎ DeltaResponse → Error ⊎ QuoteResult → Type 0
  IsDeltaQuote w (inl e) result = result ≡ inl e
  IsDeltaQuote w (inr r) result =
      (q : QuoteResult) × (result ≡ inr q)
      × (q.carrier_id ≡ "delta")
      × (q.carrier_ref ≡ r.quote_id)
      × (q.premium.amount ≡ r.premium_cents)
      × (clock w < q.expires_at)

  later :
      (s : ℤ) (t : ℕ)
      → t < t + pos_part (if leb_ℤ (seconds s) (pos 0) then five_minutes else seconds s)
  later (pos n) t = ground arith
  later (negsuc n) t = ground arith

  abbrev delta_pipeline : W × (Error ⊎ DeltaResponse) → W × (Error ⊎ QuoteResult)
  delta_pipeline (w, inl e) = (w, inl e)
  delta_pipeline (w, inr r) = (w, inr (delta_result w r "delta"))

  delta_pipeline-IsDeltaQuote :
      (p : W × (Error ⊎ DeltaResponse))
      → ((delta_pipeline p).0 ≡ p.0) × IsDeltaQuote p.0 p.1 (delta_pipeline p).1
  unfolding delta_result
  delta_pipeline-IsDeltaQuote (w, inl e) = (refl, refl)
  delta_pipeline-IsDeltaQuote (w, inr r) = (
    refl,
    (delta_result w r "delta", refl, refl, refl, refl, later r.valid_for_seconds (clock w)),
  )

  delta_calls :
      {F : Type 0} (post : DeltaRequest → W → W × (Error ⊎ DeltaResponse)) (q : QuoteRequest F)
      (w : W)
      → register_delta_carrier post q w ≡ delta_pipeline (post (delta_request q) w)
  unfolding register_delta_carrier
  delta_calls post q w = ground arith

  -- The function that is registered for Delta makes one call with the identifier and the lines of the
  -- request. An error is passed on; a response becomes a quote of the carrier "delta" with its
  -- reference and premium, which is not yet expired when the response arrives, whatever validity the
  -- response names.
  pub register_delta_carrier-IsDeltaQuote :
      {F : Type 0} (post : DeltaRequest → W → W × (Error ⊎ DeltaResponse)) (q : QuoteRequest F)
      (w : W)
      → ((register_delta_carrier post q w).0 ≡ (post (delta_request q) w).0)
        × IsDeltaQuote
            (post (delta_request q) w).0
            (post (delta_request q) w).1
            (register_delta_carrier post q w).1
  register_delta_carrier-IsDeltaQuote post q w =
      subst
        (λ (o : W × (Error ⊎ QuoteResult)).
          (o.0 ≡ (post (delta_request q) w).0)
          × IsDeltaQuote (post (delta_request q) w).0 (post (delta_request q) w).1 o.1)
        (sym (delta_calls post q w)) (delta_pipeline-IsDeltaQuote (post (delta_request q) w))

-- A registered function is found under its carrier, and every other carrier has the function it had.
pub registry_get-registry_register :
    {F W : Type 0} (r : AdapterRegistry F W) (carrier_id wanted : String) (fn : AdapterFunc F W)
    → registry_get wanted (registry_register carrier_id fn r)
      ≡ (if same_text carrier_id wanted then some fn else registry_get wanted r)
unfolding registry_get registry_register
registry_get-registry_register r carrier_id wanted fn = read-write r carrier_id wanted fn
