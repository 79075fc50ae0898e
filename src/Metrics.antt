-- ===== src/Metrics.antt =====
-- `PrometheusRecorder` of internal/metrics/prometheus.go, over the vectors of the Prometheus client: a gauge
-- has the value that was set last for its labels, a counter is the list of the labels it was incremented
-- for, and a histogram the list of what it observed, the newest first. `seconds` is `Duration.Seconds`.
-- Names, labels and buckets are in Recorders; help texts are left out.
pub mod Recorders
mod Tests
use riskforge.Prelude.{
  ℕ, ◌≡◌, refl, ap, ◌∙◌, String, Bool, true, List, [], ◌∷◌, some, ◌⊎◌, inl, inr, arith, Dict, read,
  write, read-write_same, All,
}
use riskforge.Prelude.Int.{ℤ}
use riskforge.Breaker.{
  CbState, cb_value, state_closed, state_open, state_half_open, Breaker, BreakerMetric,
  set_cb_state, record_cb_transition, Config,
}
use riskforge.Breaker
use riskforge.Breaker.History.{Call, run}
use riskforge.Breaker.Trace.{allowed, IsTrace, seeded, moved, run-new-Traced}

pub record Observation (F : Type 0) : Type 0 where
  pub labels : List String
  pub value : F

pub record PrometheusRecorder (F : Type 0) : Type 0 where
  pub cb_state_gauge : Dict ℕ
  pub p95_latency_gauge : Dict F
  pub quote_latency_hist : List (Observation F)
  pub fan_out_duration_hist : List F
  pub requests_total : List (List String)
  pub hedges_total : List (List String)
  pub cb_transitions_total : List (List String)
  pub rate_limit_total : List (List String)

abbrev pub cb_state_label : CbState → String
cb_state_label state_closed = "closed"
cb_state_label state_half_open = "halfopen"
cb_state_label state_open = "open"

-- The labels of one of the transitions that the breaker's doc comment names.
abbrev pub IsTransition : String → List String → Type 0
IsTransition c labels =
    (from : CbState) × (to : CbState) × (allowed from to ≡ true)
    × (labels ≡ c ∷ cb_state_label from ∷ cb_state_label to ∷ [])

module _ {F : Type 0} where
  abbrev pub empty_recorder : PrometheusRecorder F
  empty_recorder = record {
    cb_state_gauge = [];
    p95_latency_gauge = [];
    quote_latency_hist = [];
    fan_out_duration_hist = [];
    requests_total = [];
    hedges_total = [];
    cb_transitions_total = [];
    rate_limit_total = [];
  }

  unfoldable pub record_quote :
      (ℤ → F) → String → ℤ → String → PrometheusRecorder F → PrometheusRecorder F
  record_quote seconds carrier_id latency status r = record r {
    requests_total = (carrier_id ∷ status ∷ []) ∷ r.requests_total;
    quote_latency_hist =
        record { labels = carrier_id ∷ status ∷ []; value = seconds latency }
        ∷ r.quote_latency_hist;
  }

  unfoldable pub record_hedge : String → String → PrometheusRecorder F → PrometheusRecorder F
  record_hedge hedge_carrier_id trigger_carrier_id r = record r {
    hedges_total = (hedge_carrier_id ∷ trigger_carrier_id ∷ []) ∷ r.hedges_total;
  }

  unfoldable pub record_rate_limit_rejection : String → PrometheusRecorder F → PrometheusRecorder F
  record_rate_limit_rejection carrier_id r = record r {
    rate_limit_total = (carrier_id ∷ []) ∷ r.rate_limit_total;
  }

  unfoldable pub record_fan_out_duration : (ℤ → F) → ℤ → PrometheusRecorder F → PrometheusRecorder F
  record_fan_out_duration seconds duration r = record r {
    fan_out_duration_hist = seconds duration ∷ r.fan_out_duration_hist;
  }

  unfoldable pub set_p95_latency : String → F → PrometheusRecorder F → PrometheusRecorder F
  set_p95_latency carrier_id ms r = record r {
    p95_latency_gauge = write r.p95_latency_gauge carrier_id ms;
  }

  -- RecordCBTransition and SetCBState, which a breaker calls.
  unfoldable pub receive : BreakerMetric → PrometheusRecorder F → PrometheusRecorder F
  receive (record_cb_transition carrier_id from to) r = record r {
    cb_transitions_total =
        (carrier_id ∷ cb_state_label from ∷ cb_state_label to ∷ []) ∷ r.cb_transitions_total;
  }
  receive (set_cb_state carrier_id state) r = record r {
    cb_state_gauge = write r.cb_state_gauge carrier_id (cb_value state);
  }

  -- The calls of a log, of which the last is the oldest.
  abbrev pub receive_all : List BreakerMetric → PrometheusRecorder F → PrometheusRecorder F
  receive_all [] r = r
  receive_all (m ∷ log) r = receive m (receive_all log r)

module _ (F : Type 0) where
  trace_exported :
      (c : String) (s : CbState) (l : List BreakerMetric)
      → IsTrace c s l
      → (read (receive_all l (empty_recorder {F = F})).cb_state_gauge c ≡ some (cb_value s))
        × All (IsTransition c) (receive_all l (empty_recorder {F = F})).cb_transitions_total
  unfolding receive
  trace_exported c s l seeded = (read-write_same [] c (cb_value state_closed), tt)
  trace_exported c s l (moved {from} {to} {log} ok trace) =
      let (_, rest) = trace_exported c from log trace in
      (
        read-write_same (receive_all log (empty_recorder {F = F})).cb_state_gauge c (cb_value to),
        ((from, to, ok, refl), rest),
      )

  -- After `New` and any calls that do not overlap, the exported gauge of the carrier is the state of its
  -- breaker, 0 for closed, 1 for open and 2 for half-open, and every exported transition is one of the
  -- four that the breaker's doc comment names.
  pub gauge-run :
      {W : Type 0} (carrier_id : String) (cfg : Config) (w : W) (cs : List (Call W))
      → (let b = (run (Breaker.new carrier_id cfg) w cs).0 in
          let r = receive_all b.metrics (empty_recorder {F = F}) in
          (read r.cb_state_gauge b.carrier_id ≡ some (cb_value b.state))
          × All (IsTransition b.carrier_id) r.cb_transitions_total)
  gauge-run carrier_id cfg w cs =
      let b = (run (Breaker.new carrier_id cfg) w cs).0 in
      trace_exported b.carrier_id b.state b.metrics (run-new-Traced carrier_id cfg w cs)
