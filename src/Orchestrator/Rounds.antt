-- ===== src/Orchestrator/Rounds.antt =====
-- `callCarrier` of internal/orchestrator/orchestrator.go for all carriers of a request and for one
-- request after another, over the maps of the orchestrator, with the goroutines of the hedges that
-- internal/orchestrator/hedging.go fires. The calls of a request end one after another, those of the carriers in
-- their order and those of the hedges anywhere between them; which hedges there are is an argument, of which
-- Hedging/Monitor says more. A carrier that lacks its breaker, limiter or tracker has
-- a nil pointer, on which the call can panic: then the result is none, also where it would not come to
-- that. `moments` is what the clock shows in the call of a carrier. The calls of RecordHedge are left out.
pub mod OneCall
pub mod Readiness
pub mod Answers
use riskforge.Prelude.{
  ℕ, zero, suc, Bool, true, false, if◌then◌else◌, String, List, [], ◌∷◌, ◌++◌, Option, none, some,
  ◌⊎◌, inl, inr, Dict, read, write,
}
use riskforge.Prelude.Float.{Float}
use riskforge.Domain.{QuoteRequest, QuoteResult, Carrier}
use riskforge.Domain.Errors.{Error}
use riskforge.Breaker.{Breaker}
use riskforge.RateLimiter.{TokenBucket, Limiter, wait, try_acquire}
use riskforge.Hedging.Tracker.{EmaTracker}
use riskforge.Adapter.Registry.{AdapterFunc, AdapterRegistry, registry_get}
use riskforge.Orchestrator.Call.{QuoteMetric, Moments, CallState, call_carrier}
use riskforge.Orchestrator.Eligible.{filter_eligible_carriers}
use riskforge.Orchestrator.Response.{respond}

module _ (float : Float) (bucket : TokenBucket float.F) (W : Type 0) where
  open float use {F}

  -- What the calls change: the world behind the adapters, the maps, and the calls of RecordQuote, newest first.
  pub record Engine : Type 0 where
    pub world : W
    pub breakers : Dict Breaker
    pub limiters : Dict (Limiter bucket)
    pub trackers : Dict (EmaTracker float)
    pub metrics : List QuoteMetric

  -- A hedge: the place of its candidate among the eligible carriers, and whether its result is put into the channel
  -- before the context is done.
  pub record HedgeCall : Type 0 where
    pub candidate : ℕ
    pub delivered : Bool

  -- A request that misses the cache. `hedges` are those that end after the call of the carrier before and before
  -- the call of this one, `late_hedges` those after all calls.
  pub record Round : Type 0 where
    pub request : QuoteRequest F
    pub moments : String → Moments
    pub hedges : String → List HedgeCall
    pub late_hedges : List HedgeCall

  abbrev pub carrier_at : ℕ → List (Carrier F) → Option (Carrier F)
  carrier_at n [] = none
  carrier_at zero (c ∷ cs) = some c
  carrier_at (suc n) (c ∷ cs) = carrier_at n cs

  -- What the calls have done, and the results that they have sent; none if one of them has panicked.
  abbrev pub Calls : Type 0
  Calls = Option (Engine × List QuoteResult)

  abbrev pub sent_before : List QuoteResult → Calls → Calls
  sent_before sent none = none
  sent_before sent (some (e, arrived)) = some (e, sent ++ arrived)

  abbrev pub and_then : Calls → (Engine → Calls) → Calls
  and_then none rest = none
  and_then (some (e, sent)) rest = sent_before sent (rest e)

  -- The goroutine of a hedge keeps the result of the adapter, but for the mark.
  unfoldable pub hedge_sent : Bool → Error ⊎ QuoteResult → List QuoteResult
  hedge_sent delivered (inl e) = []
  hedge_sent delivered (inr q) = if delivered then record q { is_hedged = true } ∷ [] else []

  -- The limiter stands beside the world in the state of a call.
  abbrev pub on_world : AdapterFunc F W → AdapterFunc F (W × Limiter bucket)
  on_world exec_fn req (w, l) = let (w', answer) = exec_fn req w in ((w', l), answer)

  abbrev pub wait_limiter : W × Limiter bucket → (W × Limiter bucket) × Option Error
  wait_limiter (w, l) = let (l', limited) = wait bucket l in ((w, l'), limited)

  abbrev pub call_start :
      Engine → Limiter bucket → EmaTracker float → CallState float (W × Limiter bucket)
  call_start e l t = record { world = (e.world, l); tracker = t; metrics = e.metrics; results = [] }

  -- The maps after the call of the carrier `id`.
  abbrev pub after_call : String → Engine → Breaker × CallState float (W × Limiter bucket) → Engine
  after_call id e (b, s) = record {
    world = s.world.0;
    breakers = write e.breakers id b;
    limiters = write e.limiters id s.world.1;
    trackers = write e.trackers id s.tracker;
    metrics = s.metrics;
  }

  module _ (registry : AdapterRegistry F W) where
    abbrev pub called :
        Round
        → String
        → AdapterFunc F W
        → Breaker
        → Limiter bucket
        → EmaTracker float
        → Engine
        → Breaker × CallState float (W × Limiter bucket)
    called r id exec_fn b l t e =
        call_carrier float (some (on_world exec_fn)) wait_limiter r.request id (r.moments id) b
          (call_start e l t)

    unfoldable pub call_one : Round → String → Engine → Calls
    call_one r id e = elim (registry_get id registry) [
      | none ↦ some (e, [])
      | some exec_fn ↦ elim (read e.breakers id) [
        | none ↦ none
        | some b ↦ elim (read e.limiters id) [
          | none ↦ none
          | some l ↦ elim (read e.trackers id) [
            | none ↦ none
            | some t ↦ some (
              after_call id e (called r id exec_fn b l t e),
              (called r id exec_fn b l t e).1.results,
            )
          ]
        ]
      ]
    ]

    -- A hedge that is fired if the limiter of its candidate has a token.
    unfoldable pub hedge_one : Round → Bool → String → Engine → Calls
    unfolding hedge_sent
    hedge_one r delivered id e = elim (registry_get id registry) [
      | none ↦ some (e, [])
      | some exec_fn ↦ elim (read e.limiters id) [
        | none ↦ none
        | some l ↦
            let (l', acquired) = try_acquire bucket l in
            let taken : Engine = record e { limiters = write e.limiters id l' } in
            let (w, answer) = exec_fn r.request e.world in
            if acquired
            then some (record taken { world = w }, hedge_sent delivered answer)
            else some (taken, [])
      ]
    ]

    unfoldable pub hedge_all : Round → List (Carrier F) → List HedgeCall → Engine → Calls
    unfolding hedge_one
    hedge_all r eligible [] e = some (e, [])
    hedge_all r eligible (h ∷ hs) e =
        and_then
          (elim (carrier_at h.candidate eligible) [
            | none ↦ some (e, [])
            | some c ↦ hedge_one r h.delivered c.id e
          ])
          (λ e'. hedge_all r eligible hs e')

    unfoldable pub call_all : Round → List (Carrier F) → List (Carrier F) → Engine → Calls
    unfolding call_one hedge_all
    call_all r eligible [] e = hedge_all r eligible r.late_hedges e
    call_all r eligible (c ∷ cs) e =
        and_then (hedge_all r eligible (r.hedges c.id) e)
          (λ e'. and_then (call_one r c.id e') (λ e''. call_all r eligible cs e''))

    -- One request after another, each with its response.
    unfoldable pub run_rounds :
        List (Carrier F) → List Round → Engine → Option (Engine × List (List QuoteResult))
    unfolding call_all
    run_rounds carriers [] e = some (e, [])
    run_rounds carriers (r ∷ rs) e =
        let eligible = filter_eligible_carriers carriers e.breakers r.request.coverage_lines in
        elim (call_all r eligible eligible e) [
          | none ↦ none
          | some (e', arrived) ↦ elim (run_rounds carriers rs e') [
            | none ↦ none
            | some (e'', answers) ↦ some (e'', respond arrived ∷ answers)
          ]
        ]
