-- ===== src/Orchestrator/Quotes.antt =====
-- `GetQuotes` and `fanOut` of internal/orchestrator/orchestrator.go, for requests that do not overlap,
-- so that singleflight runs its function. The repository is a pair of functions on a state `W`; what
-- the goroutines of the carriers and of the hedge monitor put into the channel by the end of the fan-out
-- is an argument, `gather`, in the order of arrival. The recording of the duration and log lines are
-- left out.
use text.Mathlib.Text.{◌==◌ as same_text}
use riskforge.Prelude.{
  ◌≡◌, refl, String, List, [], ◌∷◌, Option, none, some, ◌⊎◌, inl, inr, if◌then◌else◌, arith, Dict,
}
use riskforge.Prelude.Int.{ℤ, pos, leb_ℤ}
use riskforge.Domain.{QuoteRequest, QuoteResult, Carrier}
use riskforge.Domain.Errors.{Error}
use riskforge.Breaker.{Breaker}
use riskforge.Orchestrator.Response.{respond}
use riskforge.Orchestrator.Eligible.{filter_eligible_carriers}
use riskforge.Orchestrator.CacheKey.{scoped_key}

-- The port QuoteRepository; a miss is none.
pub record QuoteRepository (W : Type 0) : Type 0 where
  pub find_by_request_id : String → W → W × (Error ⊎ Option (List QuoteResult))
  pub save : String → List QuoteResult → W → W × Option Error

abbrev pub default_request_timeout : ℤ
default_request_timeout = pos 5_000_000_000

abbrev pub Gather : Type 0 → Type 0 → Type 0
Gather F W = List (Carrier F) → ℤ → QuoteRequest F → W → W × List QuoteResult

-- A failed lookup is a miss.
abbrev pub hit : Error ⊎ Option (List QuoteResult) → Option (List QuoteResult)
hit (inl e) = none
hit (inr found) = found

module _ {F W : Type 0} (repo : Option (QuoteRepository W)) where
  -- The lookup at the beginning.
  unfoldable pub look_up : QuoteRequest F → W → W × Option (List QuoteResult)
  look_up req w = elim repo [
    | none ↦ (w, none)
    | some r ↦
        if same_text req.request_id ""
        then (w, none)
        else (let (w', found) = r.find_by_request_id (scoped_key req) w in (w', hit found))
  ]

  -- The save at the end; its error is only logged.
  unfoldable pub store : QuoteRequest F → List QuoteResult → W → W
  store req [] w = w
  store req (q ∷ qs) w = elim repo [
    | none ↦ w
    | some r ↦ if same_text req.request_id "" then w else (r.save (scoped_key req) (q ∷ qs) w).0
  ]

  module _ (gather : Gather F W) (carriers : List (Carrier F)) (breakers : Dict Breaker) where
    unfoldable pub gather_from :
        List (Carrier F) → QuoteRequest F → W → W × (Error ⊎ List QuoteResult)
    gather_from [] req w = (w, inr [])
    gather_from (c ∷ cs) req w =
        let timeout = if leb_ℤ req.timeout (pos 0) then default_request_timeout else req.timeout in
        let (w', arrived) = gather (c ∷ cs) timeout req w in
        (store req (respond arrived) w', inr (respond arrived))

    unfoldable pub fan_out : QuoteRequest F → W → W × (Error ⊎ List QuoteResult)
    unfolding gather_from store
    fan_out req w =
        gather_from (filter_eligible_carriers carriers breakers req.coverage_lines) req w

    unfoldable pub get_quotes : QuoteRequest F → W → W × (Error ⊎ List QuoteResult)
    unfolding fan_out look_up
    get_quotes req w =
        let (w', cached) = look_up req w in
        elim cached [ some quotes ↦ (w', inr quotes) | none ↦ fan_out req w' ]

    -- The quotes of a request that finds nothing in the cache.
    abbrev pub fresh_quotes : List (Carrier F) → QuoteRequest F → W → List QuoteResult
    fresh_quotes [] req w = []
    fresh_quotes (c ∷ cs) req w =
        respond
          (gather (c ∷ cs)
            (if leb_ℤ req.timeout (pos 0) then default_request_timeout else req.timeout) req w).1

    abbrev pub quotes_of : QuoteRequest F → W × Option (List QuoteResult) → List QuoteResult
    quotes_of req (w, some quotes) = quotes
    quotes_of req (w, none) =
        fresh_quotes (filter_eligible_carriers carriers breakers req.coverage_lines) req w

    gather_from-fresh_quotes :
        (cs : List (Carrier F)) (req : QuoteRequest F) (w : W)
        → (gather_from cs req w).1 ≡ inr (fresh_quotes cs req w)
    unfolding gather_from
    gather_from-fresh_quotes [] req w = refl
    gather_from-fresh_quotes (c ∷ cs) req w = refl

    -- A request never fails: it gives the stored quotes if the cache has some, the empty list if no
    -- carrier is eligible, and otherwise the response to what arrived, whatever failed.
    pub get_quotes-quotes_of :
        (req : QuoteRequest F) (w : W) → (get_quotes req w).1 ≡ inr (quotes_of req (look_up req w))
    unfolding get_quotes
    get_quotes-quotes_of req w = ground (
      arith,
      gather_from-fresh_quotes (filter_eligible_carriers carriers breakers req.coverage_lines) req
          (look_up req w).0,
    )

    -- A fan-out gives a list, never an error.
    pub fan_out-succeeds :
        (req : QuoteRequest F) (w : W)
        → (fan_out req w).1
          ≡ inr (fresh_quotes (filter_eligible_carriers carriers breakers req.coverage_lines) req w)
    unfolding fan_out
    fan_out-succeeds req w =
        gather_from-fresh_quotes (filter_eligible_carriers carriers breakers req.coverage_lines) req
          w
