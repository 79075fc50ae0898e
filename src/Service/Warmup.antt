-- ===== src/Service/Warmup.antt =====
-- The orchestrator that `Run` of internal/cli/run.go makes, and the hedges of a request that comes while the
-- latency trackers warm up.
use riskforge.Prelude.{
  ℕ, ◌≡◌, ◌<◌, refl, sym, subst, ◌∙◌, String, Bool, true, List, [], ◌∷◌, Option, none, some, Dict,
  read, arith, OneOf, All, All-OneOf, map, length, inl, inr,
}
use riskforge.Prelude.Int.{ℤ, pos, pos_part, sub_ℕ, ltb_ℤ}
use riskforge.Prelude.Float.{Float, FloatOrder}
use riskforge.Domain.{Carrier, CoverageLine}
use riskforge.Breaker.{Breaker}
use riskforge.RateLimiter.{TokenBucket}
use riskforge.Adapter.Mock.{Simulation}
use riskforge.Hedging.Tracker.{
  EmaTracker, new_ema_tracker, record_all, hedge_threshold, hedge_threshold-new_ema_tracker,
}
use riskforge.Hedging.Candidate.{HedgeCarrier}
use riskforge.Hedging.Monitor.{PendingCarrier, elapsed_ms, hedge_monitor, monitor_start}
use riskforge.Hedging.Quiet.{IsEarly, hedge_monitor_early}
use riskforge.Orchestrator.Eligible.{filter_eligible_carriers, eligible-OneOf}
use riskforge.Orchestrator.Quotes.{QuoteRepository}
use riskforge.Orchestrator.Preparation.{
  Orchestrator, new, HedgeEntry, hedge_entries, pending_from, AllWarming, AllRegistered, IsHeld,
  hedge_entries_found, pending_from-IsHeld,
}
use riskforge.Wiring.{with_config_defaults, Fleet, no_fleet, equip_all, equip_all_found}

module _ (float : Float) (is_zero_float : float.F → Bool) (bucket : TokenBucket float.F)
    {W : Type 0} (sim : Simulation float.F W) where
  open float use {F, div, of_int, max_float}

  -- The maps after the loop over the carriers.
  abbrev pub fleet_of : List (Carrier F) → Fleet float is_zero_float bucket sim
  fleet_of cs =
      equip_all float is_zero_float bucket sim cs (no_fleet float is_zero_float bucket sim)

  -- The call of `New`, with the empty Config.
  abbrev pub orchestrator_of :
      List (Carrier F) → Option (QuoteRepository W) → Orchestrator float bucket W
  orchestrator_of cs repo = new float bucket W (record {
    carriers = cs;
    registry = (fleet_of cs).registry;
    breakers = (fleet_of cs).breakers;
    limiters = (fleet_of cs).limiters;
    trackers = (fleet_of cs).trackers;
    repo = repo;
    hedge_poll_interval = pos 0;
  })

  -- The tracker of each carrier has recorded these latencies since the start.
  abbrev pub HasRecorded : List (Carrier F) → (String → List ℤ) → Dict (EmaTracker float) → Type 0
  HasRecorded cs recorded trackers =
      (id : String) (t : EmaTracker float)
      → read (fleet_of cs).trackers id ≡ some t
      → read trackers id ≡ some (record_all float (recorded id) t)

  -- They are fewer than the warm-up of the carrier, with the default for zero.
  abbrev pub WarmingUp : (String → List ℤ) → Carrier F → Type 0
  WarmingUp recorded c =
      ltb_ℤ (pos (length (recorded c.id)))
        (with_config_defaults float is_zero_float c.config).ema_warmup_observations
      ≡ true

  tracker_held :
      (cs : List (Carrier F)) (recorded : String → List ℤ) (trackers : Dict (EmaTracker float))
      (c : Carrier F)
      → HasRecorded cs recorded trackers
      → All (WarmingUp recorded) cs
      → OneOf c cs
      → (t : EmaTracker float) × (read trackers c.id ≡ some t)
        × (hedge_threshold float t ≡ max_float)
  tracker_held cs recorded trackers c has warming m =
      let r =
        equip_all_found float is_zero_float bucket sim cs (no_fleet float is_zero_float bucket sim)
          c m in
      let cfg = with_config_defaults float is_zero_float r.source.config in
      let t0 = new_ema_tracker float c.id cfg.timeout_hint cfg in
      let warm : ltb_ℤ (pos (length (recorded c.id))) cfg.ema_warmup_observations ≡ true =
        subst (λ id. ltb_ℤ (pos (length (recorded id))) cfg.ema_warmup_observations ≡ true) r.named
          (All-OneOf (WarmingUp recorded) r.source cs warming r.among) in
      (
        record_all float (recorded c.id) t0,
        has c.id t0 r.equipped.tracker,
        hedge_threshold-new_ema_tracker float c.id cfg.timeout_hint cfg (recorded c.id)
            ∙ (rw warm refl),
      )

  eligible-AllWarming :
      (cs : List (Carrier F)) (recorded : String → List ℤ) (trackers : Dict (EmaTracker float))
      (ds : List (Carrier F))
      → HasRecorded cs recorded trackers
      → All (WarmingUp recorded) cs
      → ((c : Carrier F) → OneOf c ds → OneOf c cs)
      → AllWarming float trackers ds × AllRegistered float (fleet_of cs).registry ds
  eligible-AllWarming cs recorded trackers [] has warming among = (tt, tt)
  eligible-AllWarming cs recorded trackers (d ∷ ds) has warming among =
      let (held, registered) =
        eligible-AllWarming cs recorded trackers ds has warming (λ c m. among c (inr m)) in
      let m = among d (inl refl) in
      let r =
        equip_all_found float is_zero_float bucket sim cs (no_fleet float is_zero_float bucket sim)
          d m in
      (
        (tracker_held cs recorded trackers d has warming m, held),
        ((_, r.equipped.adapter), registered),
      )

  module _ (order : FloatOrder F) {V : Type 0} (hedgeable : V → List (HedgeCarrier F))
      (try_acquire : HedgeCarrier F → V → V × Bool) (others : ℕ → V → V) where
    range-IsEarly :
        (pending : Dict (PendingCarrier F))
        (order_of : ℕ → Dict (PendingCarrier F) → List (PendingCarrier F)) (moments : List ℕ)
        → ((now : ℕ) (d : Dict (PendingCarrier F)) (p : PendingCarrier F)
            → OneOf p (order_of now d)
            → (id : String) × (read d id ≡ some p))
        → ((d : ℤ)
            → pos_part d < 9_223_372_036_854_775_808
            → order.lt (div (of_int d) (of_int (pos 1_000_000))) max_float ≡ true)
        → All (λ now. now < 9_223_372_036_854_775_808) moments
        → IsHeld float pending
        → All
            (λ now.
              (p : PendingCarrier F)
              → OneOf p (order_of now pending)
              → IsEarly float order hedgeable try_acquire others now p)
            moments
    range-IsEarly pending order_of [] ranges short bounded held = tt
    range-IsEarly pending order_of (now ∷ moments) ranges short (b, bounded) held = (
      λ p m.
          let (id, e) = ranges now pending p m in
          subst (λ x. order.lt (elapsed_ms float order hedgeable try_acquire others now p) x ≡ true)
            (sym (held id p e)) (short (sub_ℕ now p.start_time) (ground arith)),
      range-IsEarly pending order_of moments ranges short bounded held,
    )

    -- While every carrier has recorded fewer latencies than its warm-up, a request finds all it needs and fires
    -- no hedge. Its preparation panics at no missing tracker and gives an entry for each eligible carrier, in
    -- their order; the monitor is to look every five milliseconds, and it fires nothing, whatever the ticks, the
    -- order of the pending carriers at each, the limiters and the breakers. It is assumed that a range over a
    -- map gives entries of the map, and that a duration of an int64 in milliseconds is below math.MaxFloat64.
    pub prepared_without_hedge :
        (cs : List (Carrier F)) (repo : Option (QuoteRepository W)) (recorded : String → List ℤ)
        (trackers : Dict (EmaTracker float)) (breakers : Dict Breaker) (lines : List CoverageLine)
        (stamp : Carrier F → ℕ) (order_of : ℕ → Dict (PendingCarrier F) → List (PendingCarrier F))
        (moments : List ℕ) (v : V)
        → HasRecorded cs recorded trackers
        → All (WarmingUp recorded) cs
        → ((now : ℕ) (d : Dict (PendingCarrier F)) (p : PendingCarrier F)
            → OneOf p (order_of now d)
            → (id : String) × (read d id ≡ some p))
        → ((d : ℤ)
            → pos_part d < 9_223_372_036_854_775_808
            → order.lt (div (of_int d) (of_int (pos 1_000_000))) max_float ≡ true)
        → All (λ now. now < 9_223_372_036_854_775_808) moments
        → (let o = orchestrator_of cs repo in
            let eligible = filter_eligible_carriers o.carriers breakers lines in
            (entries : List (HedgeEntry float W)) × (pending : Dict (PendingCarrier F))
            × (hedge_entries float trackers o.registry eligible ≡ some entries)
            × (map (λ (e : HedgeEntry float W). e.carrier) entries ≡ eligible)
            × (pending_from float trackers stamp [] eligible ≡ some pending)
            × (o.hedge_poll_interval ≡ pos 5_000_000)
            × ((hedge_monitor float order hedgeable try_acquire others moments
                  (λ now. order_of now pending)
                  (monitor_start float order hedgeable try_acquire others v)).fired
                ≡ []))
    unfolding new read
    prepared_without_hedge cs repo recorded trackers breakers lines stamp order_of moments v has
          warming ranges short bounded =
        let eligible = filter_eligible_carriers cs breakers lines in
        let (held, registered) =
          eligible-AllWarming cs recorded trackers eligible has warming
            (eligible-OneOf cs breakers lines) in
        let (entries, made, carriers) =
          hedge_entries_found float trackers (fleet_of cs).registry eligible held registered in
        let (pending, filled, quiet) =
          pending_from-IsHeld float trackers stamp [] eligible held
            (λ id p e. absurd (none-some e)) in
        (
          entries,
          pending,
          made,
          carriers,
          filled,
          refl,
          hedge_monitor_early float order hedgeable try_acquire others moments
              (λ now. order_of now pending)
              (monitor_start float order hedgeable try_acquire others v)
              (range-IsEarly pending order_of moments ranges short bounded quiet),
        )
      where
        none-some : {p : PendingCarrier F} → none ≡ some p → ⊥
        none-some e = cc e
