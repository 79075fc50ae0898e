-- ===== src/Orchestrator/Call.antt =====
-- `callCarrier` of internal/orchestrator/orchestrator.go: the limiter, the breaker, and the adapter
-- with the tracker and the metrics, for calls of a carrier that do not overlap. The limiter's `Wait`
-- and the adapter are functions on a state `W`; log lines are left out.
use riskforge.Prelude.{
  ℕ, ◌≡◌, sym, ap, subst, ◌∙◌, String, Bool, List, ◌∷◌, Option, none, some, ◌⊎◌, inl, inr,
  if◌then◌else◌, arith,
}
use riskforge.Prelude.Int.{ℤ, pos}
use riskforge.Prelude.Float.{Float}
use riskforge.Domain.{QuoteRequest, QuoteResult}
use riskforge.Domain.Errors.{Error, errors_is}
use riskforge.Breaker.{Breaker, execute}
use riskforge.Breaker.Spec.{View, view, limits, admit, settle, spec_execute, IsWellFormed}
use riskforge.Breaker.Refinement.{outcome, execute-spec_execute}
use riskforge.Hedging.Tracker.{EmaTracker, record_latency}
use riskforge.Orchestrator.Status.{classify_error}

-- A call of RecordQuote.
pub record QuoteMetric : Type 0 where
  pub carrier_id : String
  pub latency : ℤ
  pub status : String

-- What the clock shows and the select decides in one call: the time at which the breaker is asked, the
-- stamp of an opening, the latency of an answer and of a failure since `callStart`, and whether the
-- result goes into the channel before the context ends.
pub record Moments : Type 0 where
  pub asked : ℕ
  pub stamp : ℕ
  pub answered : ℤ
  pub failed : ℤ
  pub delivered : Bool

module _ (float : Float) where
  open float use {F}

  -- `metrics` and `results` have the newest first.
  pub record CallState (W : Type 0) : Type 0 where
    pub world : W
    pub tracker : EmaTracker float
    pub metrics : List QuoteMetric
    pub results : List QuoteResult

  abbrev pub record_quote : {W : Type 0} → String → ℤ → String → CallState W → CallState W
  record_quote id latency status s = record s {
    metrics = record { carrier_id = id; latency = latency; status = status } ∷ s.metrics;
  }

  -- The result with the identifier of the request and the latency, after Record and RecordQuote.
  abbrev pub quoted :
      {W : Type 0} → String → String → Moments → QuoteResult → CallState W → CallState W
  quoted id request_id m result s = record (record_quote id m.answered "success" s) {
    tracker = record_latency float m.answered s.tracker;
    results =
        if m.delivered
        then record result { request_id = request_id; latency = m.answered } ∷ s.results
        else s.results;
  }

  module _ {W : Type 0} (exec_fn : QuoteRequest F → W → W × (Error ⊎ QuoteResult))
      (req : QuoteRequest F) where
    -- The function that is given to the breaker.
    unfoldable pub adapter_call : String → Moments → CallState W → CallState W × Option Error
    adapter_call id m s =
        let (w, answer) = exec_fn req s.world in
        elim answer [
          | inl e ↦ (record s { world = w }, some e)
          | inr result ↦ (quoted id req.request_id m result (record s { world = w }), none)
        ]

    -- After the limiter has given a token.
    unfoldable pub call_breaker : String → Moments → Breaker → CallState W → Breaker × CallState W
    unfolding adapter_call
    call_breaker id m b s =
        let (b', s', failure) = execute b m.asked m.stamp (adapter_call id m) s in
        elim failure [
          | none ↦ (b', s')
          | some e ↦ (b', record_quote id m.failed (classify_error e) s')
        ]

  -- `Get` of the registry gives none for a carrier without an adapter.
  unfoldable pub call_carrier :
      {W : Type 0}
      → Option (QuoteRequest F → W → W × (Error ⊎ QuoteResult))
      → (W → W × Option Error)
      → QuoteRequest F
      → String
      → Moments
      → Breaker
      → CallState W
      → Breaker × CallState W
  unfolding call_breaker
  call_carrier none wait req id m b s = (b, s)
  call_carrier (some exec_fn) wait req id m b s =
      let (w, limited) = wait s.world in
      elim limited [
        | some e ↦ (b, record_quote id (pos 0) "rate_limited" (record s { world = w }))
        | none ↦ call_breaker exec_fn req id m b (record s { world = w })
      ]

  module _ {W : Type 0} (exec_fn : QuoteRequest F → W → W × (Error ⊎ QuoteResult))
      (req : QuoteRequest F) where
    -- What a call with a token does, by the machine of the breaker: turned away, it records
    -- "circuit_open" and calls nobody; admitted, it calls the adapter once, and either records the quote
    -- and sends it or records the failure.
    abbrev pub answer_call :
        String → Moments → CallState W → W × (Error ⊎ QuoteResult) → CallState W × Option Error
    answer_call id m s (w, inl e) =
        (record_quote id m.failed (classify_error e) (record s { world = w }), some e)
    answer_call id m s (w, inr result) =
        (quoted id req.request_id m result (record s { world = w }), none)

    abbrev pub spec_call : String → Moments → Breaker → CallState W → View × CallState W
    spec_call id m b s = elim (admit (limits b) (view b) m.asked) [
      | none ↦ (view b, record_quote id m.failed "circuit_open" s)
      | some v ↦
          let (s', failure) = answer_call id m s (exec_fn req s.world) in
          (settle (limits b) v m.stamp failure, s')
    ]

    abbrev pub seen : Breaker × CallState W → View × CallState W
    seen (b, s) = (view b, s)

    abbrev finish : String → Moments → View × CallState W × Option Error → View × CallState W
    finish id m (v, s, none) = (v, s)
    finish id m (v, s, some e) = (v, record_quote id m.failed (classify_error e) s)

    seen-call_breaker :
        (id : String) (m : Moments) (b : Breaker) (s : CallState W)
        → seen (call_breaker exec_fn req id m b s)
          ≡ finish id m (outcome (execute b m.asked m.stamp (adapter_call exec_fn req id m) s))
    unfolding call_breaker
    seen-call_breaker id m b s = ground arith

    call_breaker-execute :
        (id : String) (m : Moments) (b : Breaker) (s : CallState W)
        → (call_breaker exec_fn req id m b s).0
          ≡ (execute b m.asked m.stamp (adapter_call exec_fn req id m) s).0
    unfolding call_breaker
    call_breaker-execute id m b s = ground arith

    finish-spec_execute :
        (id : String) (m : Moments) (b : Breaker) (s : CallState W)
        → finish id m
            (spec_execute (limits b) (view b) m.asked m.stamp (adapter_call exec_fn req id m) s)
          ≡ spec_call id m b s
    unfolding adapter_call classify_error errors_is
    finish-spec_execute id m b s = ground arith

    call_breaker-spec_call :
        (id : String) (m : Moments) (b : Breaker) (s : CallState W)
        → IsWellFormed b
        → (seen (call_breaker exec_fn req id m b s) ≡ spec_call id m b s)
          × IsWellFormed (call_breaker exec_fn req id m b s).0
    call_breaker-spec_call id m b s v =
        let (e, v') = execute-spec_execute b m.asked m.stamp (adapter_call exec_fn req id m) s v in
        (
          seen-call_breaker id m b s ∙ ap (finish id m) e ∙ finish-spec_execute id m b s,
          subst IsWellFormed (sym (call_breaker-execute id m b s)) v',
        )

    -- On a well-formed breaker a call of a carrier with an adapter does this, and leaves a well-formed
    -- breaker: without a token it records "rate_limited" and changes neither the breaker nor the
    -- results; with a token it does what the breaker's machine says, so a call that is turned away
    -- records "circuit_open" and does not call the adapter, an answer is recorded with its latency and sent
    -- under the request's identifier, and a failure is recorded under its label.
    pub call_carrier-spec_call :
        (wait : W → W × Option Error) (id : String) (m : Moments) (b : Breaker) (s : CallState W)
        → IsWellFormed b
        → (seen (call_carrier (some exec_fn) wait req id m b s) ≡ (elim (wait s.world).1 [
          | some e ↦ (
            view b,
            record_quote id (pos 0) "rate_limited" (record s { world = (wait s.world).0 }),
          )
          | none ↦ spec_call id m b (record s { world = (wait s.world).0 })
        ]))
          × IsWellFormed (call_carrier (some exec_fn) wait req id m b s).0
    unfolding call_carrier
    call_carrier-spec_call wait id m b s v =
        ground (arith, call_breaker-spec_call id m b (record s { world = (wait s.world).0 }) v)
