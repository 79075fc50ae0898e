-- ===== src/Metrics/Recorders.antt =====
-- The port MetricsRecorder of internal/ports/metrics_port.go with its two implementations: the vectors that
-- `New` of internal/metrics/prometheus.go registers, and the counting `NoopRecorder` of
-- internal/testutil/recorder.go, whose counts do not reach 2 ^ 63. Bounds of buckets are thousandths of a
-- second; the help texts are left out.
pub mod Agreement
use text.Mathlib.Text.{◌==◌ as same_text}
use riskforge.Prelude.{
  ℕ, ◌+◌, ◌≡◌, ◌<◌, refl, String, Bool, true, false, not, ◌&&◌, List, [], ◌∷◌, map, any, All,
  length, arith, ltb,
}
use riskforge.Prelude.Int.{ℤ}
use riskforge.Breaker.{CbState, set_cb_state, record_cb_transition}
use riskforge.Metrics.{
  PrometheusRecorder, Observation, empty_recorder, record_quote, record_hedge,
  record_rate_limit_rejection, record_fan_out_duration, set_p95_latency, receive,
}

-- A call of a method of the port.
pub data RecorderCall (F : Type 0) : Type 0 where
  quote : (carrier_id : String) → (latency : ℤ) → (status : String) → RecorderCall F
  hedge : (hedge_carrier_id trigger_carrier_id : String) → RecorderCall F
  cb_transition : (carrier_id : String) → (from to : CbState) → RecorderCall F
  rate_limit_rejection : (carrier_id : String) → RecorderCall F
  fan_out_duration : (duration : ℤ) → RecorderCall F
  cb_state : (carrier_id : String) → (state : CbState) → RecorderCall F
  p95_latency : (carrier_id : String) → (ms : F) → RecorderCall F

-- A metric as it is registered; only histograms have buckets.
pub record Vector : Type 0 where
  pub name : String
  pub labels : List String
  pub buckets : List ℕ

abbrev pub quote_latency_buckets : List ℕ
quote_latency_buckets = 10 ∷ 25 ∷ 50 ∷ 100 ∷ 250 ∷ 500 ∷ 1000 ∷ 2500 ∷ 5000 ∷ 10_000 ∷ []

abbrev pub fan_out_duration_buckets : List ℕ
fan_out_duration_buckets = 50 ∷ 100 ∷ 250 ∷ 500 ∷ 1000 ∷ 2500 ∷ 5000 ∷ 10_000 ∷ []

pub record Vectors : Type 0 where
  pub cb_state_gauge : Vector
  pub p95_latency_gauge : Vector
  pub quote_latency_hist : Vector
  pub fan_out_duration_hist : Vector
  pub requests_total : Vector
  pub hedges_total : Vector
  pub cb_transitions_total : Vector
  pub rate_limit_total : Vector

abbrev vec : String → List String → Vector
vec name labels = record { name = name; labels = labels; buckets = [] }

unfoldable pub vectors : Vectors
vectors = record {
  cb_state_gauge = vec "carrier_circuit_breaker_state" ("carrier_id" ∷ []);
  p95_latency_gauge = vec "carrier_p95_latency_ms" ("carrier_id" ∷ []);
  quote_latency_hist = record {
    name = "carrier_quote_latency_seconds";
    labels = "carrier_id" ∷ "status" ∷ [];
    buckets = quote_latency_buckets;
  };
  fan_out_duration_hist = record {
    name = "orchestrator_fan_out_duration_seconds";
    labels = [];
    buckets = fan_out_duration_buckets;
  };
  requests_total = vec "carrier_requests_total" ("carrier_id" ∷ "status" ∷ []);
  hedges_total = vec "hedge_requests_total" ("carrier_id" ∷ "trigger_carrier" ∷ []);
  cb_transitions_total =
      vec "circuit_breaker_transitions_total" ("carrier_id" ∷ "from_state" ∷ "to_state" ∷ []);
  rate_limit_total = vec "rate_limit_exceeded_total" ("carrier_id" ∷ []);
}

-- The arguments of MustRegister.
unfoldable pub registered : List Vector
unfolding vectors
registered =
    vectors.cb_state_gauge ∷ vectors.p95_latency_gauge ∷ vectors.quote_latency_hist
    ∷ vectors.fan_out_duration_hist ∷ vectors.requests_total ∷ vectors.hedges_total
    ∷ vectors.cb_transitions_total ∷ vectors.rate_limit_total ∷ []

pub record NoopRecorder : Type 0 where
  pub record_quote_count : ℕ
  pub record_hedge_count : ℕ
  pub record_cb_transition_count : ℕ
  pub record_rate_limit_rejection_count : ℕ
  pub record_fan_out_duration_count : ℕ
  pub set_cb_state_count : ℕ
  pub set_p95_latency_count : ℕ

abbrev pub new_noop_recorder : NoopRecorder
new_noop_recorder = record {
  record_quote_count = 0;
  record_hedge_count = 0;
  record_cb_transition_count = 0;
  record_rate_limit_rejection_count = 0;
  record_fan_out_duration_count = 0;
  set_cb_state_count = 0;
  set_p95_latency_count = 0;
}

module _ {F : Type 0} where
  unfoldable pub count_call : RecorderCall F → NoopRecorder → NoopRecorder
  count_call (quote id latency status) n = record n {
    record_quote_count = n.record_quote_count + 1;
  }
  count_call (hedge id trigger) n = record n { record_hedge_count = n.record_hedge_count + 1 }
  count_call (cb_transition id from to) n = record n {
    record_cb_transition_count = n.record_cb_transition_count + 1;
  }
  count_call (rate_limit_rejection id) n = record n {
    record_rate_limit_rejection_count = n.record_rate_limit_rejection_count + 1;
  }
  count_call (fan_out_duration d) n = record n {
    record_fan_out_duration_count = n.record_fan_out_duration_count + 1;
  }
  count_call (cb_state id s) n = record n { set_cb_state_count = n.set_cb_state_count + 1 }
  count_call (p95_latency id ms) n = record n {
    set_p95_latency_count = n.set_p95_latency_count + 1;
  }

  module _ (seconds : ℤ → F) where
    unfoldable pub export_call : RecorderCall F → PrometheusRecorder F → PrometheusRecorder F
    unfolding record_quote record_hedge record_rate_limit_rejection record_fan_out_duration
        set_p95_latency receive
    export_call (quote id latency status) r = record_quote seconds id latency status r
    export_call (hedge id trigger) r = record_hedge id trigger r
    export_call (cb_transition id from to) r = receive (record_cb_transition id from to) r
    export_call (rate_limit_rejection id) r = record_rate_limit_rejection id r
    export_call (fan_out_duration d) r = record_fan_out_duration seconds d r
    export_call (cb_state id s) r = receive (set_cb_state id s) r
    export_call (p95_latency id ms) r = set_p95_latency id ms r
