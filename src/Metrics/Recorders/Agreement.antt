-- ===== src/Metrics/Recorders/Agreement.antt =====
-- What the two recorders have in common after the same calls, and the label values that the calls give to the
-- vectors that `New` registers: the Prometheus client panics on a wrong number of them.
use text.Mathlib.Text.{◌==◌ as same_text}
use riskforge.Prelude.{
  Bool, true, not, ◌&&◌, any, map, ltb, ℕ, ◌≡◌, refl, String, List, [], ◌∷◌, All, length, arith,
}
use riskforge.Prelude.Int.{ℤ}
use riskforge.Metrics.{
  PrometheusRecorder, empty_recorder, record_quote, record_hedge, record_rate_limit_rejection,
  record_fan_out_duration, set_p95_latency, receive,
}
use riskforge.Metrics.Recorders.{
  RecorderCall, quote, hedge, cb_transition, rate_limit_rejection, fan_out_duration, cb_state,
  p95_latency, Vector, vectors, registered, NoopRecorder, new_noop_recorder, count_call,
  export_call,
}

abbrev pub Fits : Vector → List String → Type 0
Fits v values = length values ≡ length v.labels

-- What MustRegister asks for: no name twice, and the buckets of a histogram strictly rising.
unfoldable pub is_rising : List ℕ → Bool
is_rising [] = true
is_rising (b ∷ []) = true
is_rising (b ∷ c ∷ bs) = ltb b c && is_rising (c ∷ bs)

unfoldable pub accepts : List Vector → Bool
unfolding is_rising
accepts [] = true
accepts (v ∷ vs) =
    not (any (same_text v.name) (map (λ w. w.name) vs)) && is_rising v.buckets && accepts vs

module _ {F : Type 0} where
  -- As many entries of each vector as counted calls.
  pub record SameCounts (n : NoopRecorder) (r : PrometheusRecorder F) : Type 0 where
    pub requests : length r.requests_total ≡ n.record_quote_count
    pub latencies : length r.quote_latency_hist ≡ n.record_quote_count
    pub hedges : length r.hedges_total ≡ n.record_hedge_count
    pub transitions : length r.cb_transitions_total ≡ n.record_cb_transition_count
    pub rejections : length r.rate_limit_total ≡ n.record_rate_limit_rejection_count
    pub fan_outs : length r.fan_out_duration_hist ≡ n.record_fan_out_duration_count

  -- Each entry has a value for every label of its vector.
  pub record WellLabelled (r : PrometheusRecorder F) : Type 0 where
    pub requests_fit : All (Fits vectors.requests_total) r.requests_total
    pub latencies_fit : All (λ o. Fits vectors.quote_latency_hist o.labels) r.quote_latency_hist
    pub hedges_fit : All (Fits vectors.hedges_total) r.hedges_total
    pub transitions_fit : All (Fits vectors.cb_transitions_total) r.cb_transitions_total
    pub rejections_fit : All (Fits vectors.rate_limit_total) r.rate_limit_total

  abbrev pub count_all : List (RecorderCall F) → NoopRecorder → NoopRecorder
  count_all [] n = n
  count_all (c ∷ calls) n = count_all calls (count_call c n)

  module _ (seconds : ℤ → F) where
    abbrev pub export_all : List (RecorderCall F) → PrometheusRecorder F → PrometheusRecorder F
    export_all [] r = r
    export_all (c ∷ calls) r = export_all calls (export_call seconds c r)

    count_call-SameCounts :
        (c : RecorderCall F) (n : NoopRecorder) (r : PrometheusRecorder F)
        → SameCounts n r
        → SameCounts (count_call c n) (export_call seconds c r)
    unfolding count_call export_call record_quote record_hedge record_rate_limit_rejection
        record_fan_out_duration set_p95_latency receive
    count_call-SameCounts (quote id latency status) n r h = record {
      requests = ground arith;
      latencies = ground arith;
      hedges = h.hedges;
      transitions = h.transitions;
      rejections = h.rejections;
      fan_outs = h.fan_outs;
    }
    count_call-SameCounts (hedge id trigger) n r h = record {
      requests = h.requests;
      latencies = h.latencies;
      hedges = ground arith;
      transitions = h.transitions;
      rejections = h.rejections;
      fan_outs = h.fan_outs;
    }
    count_call-SameCounts (cb_transition id from to) n r h = record {
      requests = h.requests;
      latencies = h.latencies;
      hedges = h.hedges;
      transitions = ground arith;
      rejections = h.rejections;
      fan_outs = h.fan_outs;
    }
    count_call-SameCounts (rate_limit_rejection id) n r h = record {
      requests = h.requests;
      latencies = h.latencies;
      hedges = h.hedges;
      transitions = h.transitions;
      rejections = ground arith;
      fan_outs = h.fan_outs;
    }
    count_call-SameCounts (fan_out_duration d) n r h = record {
      requests = h.requests;
      latencies = h.latencies;
      hedges = h.hedges;
      transitions = h.transitions;
      rejections = h.rejections;
      fan_outs = ground arith;
    }
    count_call-SameCounts (cb_state id s) n r h = record {
      requests = h.requests;
      latencies = h.latencies;
      hedges = h.hedges;
      transitions = h.transitions;
      rejections = h.rejections;
      fan_outs = h.fan_outs;
    }
    count_call-SameCounts (p95_latency id ms) n r h = record {
      requests = h.requests;
      latencies = h.latencies;
      hedges = h.hedges;
      transitions = h.transitions;
      rejections = h.rejections;
      fan_outs = h.fan_outs;
    }

    export_call-WellLabelled :
        (c : RecorderCall F) (r : PrometheusRecorder F)
        → WellLabelled r
        → WellLabelled (export_call seconds c r)
    unfolding export_call record_quote record_hedge record_rate_limit_rejection
        record_fan_out_duration set_p95_latency receive vectors
    export_call-WellLabelled (quote id latency status) r h = record {
      requests_fit = (refl, h.requests_fit);
      latencies_fit = (refl, h.latencies_fit);
      hedges_fit = h.hedges_fit;
      transitions_fit = h.transitions_fit;
      rejections_fit = h.rejections_fit;
    }
    export_call-WellLabelled (hedge id trigger) r h = record {
      requests_fit = h.requests_fit;
      latencies_fit = h.latencies_fit;
      hedges_fit = (refl, h.hedges_fit);
      transitions_fit = h.transitions_fit;
      rejections_fit = h.rejections_fit;
    }
    export_call-WellLabelled (cb_transition id from to) r h = record {
      requests_fit = h.requests_fit;
      latencies_fit = h.latencies_fit;
      hedges_fit = h.hedges_fit;
      transitions_fit = (refl, h.transitions_fit);
      rejections_fit = h.rejections_fit;
    }
    export_call-WellLabelled (rate_limit_rejection id) r h = record {
      requests_fit = h.requests_fit;
      latencies_fit = h.latencies_fit;
      hedges_fit = h.hedges_fit;
      transitions_fit = h.transitions_fit;
      rejections_fit = (refl, h.rejections_fit);
    }
    export_call-WellLabelled (fan_out_duration d) r h = record {
      requests_fit = h.requests_fit;
      latencies_fit = h.latencies_fit;
      hedges_fit = h.hedges_fit;
      transitions_fit = h.transitions_fit;
      rejections_fit = h.rejections_fit;
    }
    export_call-WellLabelled (cb_state id s) r h = record {
      requests_fit = h.requests_fit;
      latencies_fit = h.latencies_fit;
      hedges_fit = h.hedges_fit;
      transitions_fit = h.transitions_fit;
      rejections_fit = h.rejections_fit;
    }
    export_call-WellLabelled (p95_latency id ms) r h = record {
      requests_fit = h.requests_fit;
      latencies_fit = h.latencies_fit;
      hedges_fit = h.hedges_fit;
      transitions_fit = h.transitions_fit;
      rejections_fit = h.rejections_fit;
    }

    agree_from :
        (calls : List (RecorderCall F)) (n : NoopRecorder) (r : PrometheusRecorder F)
        → SameCounts n r
        → WellLabelled r
        → SameCounts (count_all calls n) (export_all calls r) × WellLabelled (export_all calls r)
    agree_from [] n r h l = (h, l)
    agree_from (c ∷ calls) n r h l =
        agree_from calls (count_call c n) (export_call seconds c r) (count_call-SameCounts c n r h)
          (export_call-WellLabelled c r l)

module _ (F : Type 0) where
  -- The vectors can be registered, and after any calls of the port both recorders agree: for quotes, hedges, transitions, rejections and fan-outs
  -- the vectors of the Prometheus recorder have one entry for each call that the counting recorder has counted
  -- (a quote has one in the counter and one in the histogram), and every entry has as many label values as
  -- its vector has labels.
  pub recorders_agree :
      (seconds : ℤ → F) (calls : List (RecorderCall F))
      → (accepts registered ≡ true)
        × SameCounts
            (count_all calls new_noop_recorder)
            (export_all seconds calls (empty_recorder {F = F}))
        × WellLabelled (export_all seconds calls (empty_recorder {F = F}))
  unfolding vectors registered accepts is_rising
  recorders_agree seconds calls =
      let (counts, labels) =
        agree_from seconds calls new_noop_recorder (empty_recorder {F = F})
          (record {
            requests = refl;
            latencies = refl;
            hedges = refl;
            transitions = refl;
            rejections = refl;
            fan_outs = refl;
          })
          (record {
            requests_fit = tt;
            latencies_fit = tt;
            hedges_fit = tt;
            transitions_fit = tt;
            rejections_fit = tt;
          }) in
      (refl, counts, labels)
