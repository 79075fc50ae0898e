-- ===== src/Orchestrator/Rounds/OneCall.antt =====
-- The call of one carrier by `callCarrier` of internal/orchestrator/orchestrator.go: what it records and sends.
use text.Mathlib.Text.{◌==◌ as same_text}
use riskforge.Prelude.{
  ℕ, ◌+◌, ◌≤◌, ◌≡◌, refl, sym, subst, ◌∙◌, String, Bool, true, false, [], Option, some, ◌⊎◌, inl,
  inr, Dict, read, write, read-write, length, All, arith, if◌then◌else◌, Bool-cases, Option-cases,
}
use riskforge.Prelude.Float.{Float}
use riskforge.Domain.{QuoteRequest, QuoteResult}
use riskforge.Domain.Errors.{Error}
use riskforge.Breaker.{Breaker}
use riskforge.Breaker.Spec.{IsWellFormed, View, view, limits, admit}
use riskforge.Orchestrator.Call.{
  Moments, CallState, call_carrier, spec_call, answer_call, call_carrier-spec_call,
}

-- The map has a value under the key, and it is a good one.
abbrev pub Has : {V : Type 0} → (V → Type 0) → Dict V → String → Type 0
Has {V} P d id = (x : V) × (read d id ≡ some x) × P x

pub write-Has :
    {V : Type 0} (P : V → Type 0) (d : Dict V) (k id : String) (v : V)
    → P v
    → Has P d id
    → Has P (write d k v) id
write-Has P d k id v good (x, found, fine) = pick (same_text k id) (read-write d k id v)
  where
    pick :
        (same : Bool)
        → read (write d k v) id ≡ (if same then some v else read d id)
        → Has P (write d k v) id
    pick true e = (v, e, good)
    pick false e = (x, e ∙ found, fine)

abbrev pub Any : {V : Type 0} → V → Type 0
Any v = Unit

-- What a call of a carrier records and sends: one call of RecordQuote, and at most one result, under the
-- identifier of the request.
pub record IsOneCall (float : Float) {W : Type 0} (n : ℕ) (request_id : String)
    (s : CallState float W) : Type 0 where
  pub recorded : length s.metrics ≡ n + 1
  pub sent : length s.results ≤ 1
  pub echoed : All (λ (q : QuoteResult). q.request_id ≡ request_id) s.results

answer_call-IsOneCall :
    (float : Float) {W : Type 0} (exec_fn : QuoteRequest float.F → W → W × (Error ⊎ QuoteResult))
    (req : QuoteRequest float.F) (id : String) (m : Moments) (s : CallState float W)
    (answer : W × (Error ⊎ QuoteResult))
    → s.results ≡ []
    → IsOneCall float
        (length s.metrics)
        req.request_id
        (answer_call float exec_fn req id m s answer).0
answer_call-IsOneCall float exec_fn req id m s (w, inl e) h = record {
  recorded = ground arith;
  sent = ground arith;
  echoed = rw h tt;
}
answer_call-IsOneCall float exec_fn req id m s (w, inr result) h = elim (Bool-cases m.delivered) [
  | inl d ↦ record { recorded = ground arith; sent = ground arith; echoed = rw (d, h) (refl, tt) }
  | inr d ↦ record { recorded = ground arith; sent = ground arith; echoed = rw (d, h) tt }
]

spec_call-IsOneCall :
    (float : Float) {W : Type 0} (exec_fn : QuoteRequest float.F → W → W × (Error ⊎ QuoteResult))
    (req : QuoteRequest float.F) (id : String) (m : Moments) (b : Breaker) (s : CallState float W)
    → s.results ≡ []
    → IsOneCall float (length s.metrics) req.request_id (spec_call float exec_fn req id m b s).1
spec_call-IsOneCall float exec_fn req id m b s h =
    elim (Option-cases (admit (limits b) (view b) m.asked)) [
      | inl e ↦
          rw (e, spec_call)
            (record { recorded = ground arith; sent = ground arith; echoed = rw h tt })
      | inr (v, e) ↦
          rw (e, spec_call) (answer_call-IsOneCall float exec_fn req id m s (exec_fn req s.world) h)
    ]

-- On a well-formed breaker, whatever the limiter and the adapter do.
pub call_carrier-IsOneCall :
    (float : Float) {W : Type 0} (exec_fn : QuoteRequest float.F → W → W × (Error ⊎ QuoteResult))
    (acquire : W → W × Option Error) (req : QuoteRequest float.F) (id : String) (m : Moments)
    (b : Breaker) (s : CallState float W)
    → s.results ≡ []
    → IsWellFormed b
    → IsOneCall float
        (length s.metrics)
        req.request_id
        (call_carrier float (some exec_fn) acquire req id m b s).1
      × IsWellFormed (call_carrier float (some exec_fn) acquire req id m b s).0
call_carrier-IsOneCall float {W = W} exec_fn acquire req id m b s h v =
    let (e, v') = call_carrier-spec_call float exec_fn req acquire id m b s v in
    let t : CallState float W = record s { world = (acquire s.world).0 } in
    (
      subst
          (λ (p : View × CallState float W). IsOneCall float (length s.metrics) req.request_id p.1)
          (sym e)
          (elim (Option-cases (acquire s.world).1) [
            | inl k ↦ rw k (spec_call-IsOneCall float exec_fn req id m b t h)
            | inr (x, k) ↦
                rw k (record { recorded = ground arith; sent = ground arith; echoed = rw h tt })
          ]),
      v',
    )
