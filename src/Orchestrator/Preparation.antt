-- ===== src/Orchestrator/Preparation.antt =====
-- `New` of internal/orchestrator/orchestrator.go, and what `fanOut` makes before it starts its goroutines: the
-- carriers that may get a hedge and the map `pending`. A missing tracker is a nil pointer, whose methods
-- panic: then the result is none. `stamp` is what the clock shows at a carrier's turn.
use text.Mathlib.Text.{◌==◌ as same_text}
use riskforge.Prelude.{
  ℕ, ◌≡◌, refl, sym, ap, ◌∙◌, String, Bool, true, false, List, [], ◌∷◌, Option, none, some, Dict,
  read, write, read-write, if◌then◌else◌, map,
}
use riskforge.Prelude.Int.{ℤ, pos, leb_ℤ}
use riskforge.Prelude.Float.{Float}
use riskforge.Domain.{Carrier}
use riskforge.Breaker.{Breaker}
use riskforge.RateLimiter.{TokenBucket, Limiter}
use riskforge.Hedging.Tracker.{EmaTracker, hedge_threshold}
use riskforge.Hedging.Monitor.{PendingCarrier}
use riskforge.Adapter.Registry.{AdapterFunc, AdapterRegistry, registry_get}
use riskforge.Orchestrator.Quotes.{QuoteRepository}

abbrev pub default_hedge_poll_interval : ℤ
default_hedge_poll_interval = pos 5_000_000

module _ (float : Float) (bucket : TokenBucket float.F) (W : Type 0) where
  open float use {F}

  pub record Orchestrator : Type 0 where
    pub carriers : List (Carrier F)
    pub registry : AdapterRegistry F W
    pub breakers : Dict Breaker
    pub limiters : Dict (Limiter bucket)
    pub trackers : Dict (EmaTracker float)
    pub repo : Option (QuoteRepository W)
    pub hedge_poll_interval : ℤ

  -- The configuration has the same fields.
  unfoldable pub new : Orchestrator → Orchestrator
  new c =
      if leb_ℤ c.hedge_poll_interval (pos 0)
      then record c { hedge_poll_interval = default_hedge_poll_interval }
      else c

module _ (float : Float) where
  open float use {F}

  -- A `hedgeCarrier`, but for its limiter and its breaker, which are read later.
  pub record HedgeEntry (W : Type 0) : Type 0 where
    pub carrier : Carrier F
    pub p95_ms : F
    pub exec : AdapterFunc F W

  module _ {W : Type 0} (trackers : Dict (EmaTracker float)) where
    unfoldable pub hedge_entries :
        AdapterRegistry F W → List (Carrier F) → Option (List (HedgeEntry W))
    unfolding registry_get
    hedge_entries registry [] = some []
    hedge_entries registry (c ∷ cs) =
        let rest = hedge_entries registry cs in
        elim (registry_get c.id registry) [
          | none ↦ rest
          | some exec_fn ↦ elim (read trackers c.id) [
            | none ↦ none
            | some tracker ↦ elim rest [
              | none ↦ none
              | some entries ↦
                  some
                    (record { carrier = c; p95_ms = tracker.state.p95; exec = exec_fn } ∷ entries)
            ]
          ]
        ]

  module _ (trackers : Dict (EmaTracker float)) (stamp : Carrier F → ℕ) where
    unfoldable pub pending_from :
        Dict (PendingCarrier F) → List (Carrier F) → Option (Dict (PendingCarrier F))
    unfolding hedge_threshold
    pending_from pending [] = some pending
    pending_from pending (c ∷ cs) = elim (read trackers c.id) [
      | none ↦ none
      | some tracker ↦
          pending_from
            (write pending c.id (record {
              carrier_id = c.id;
              start_time = stamp c;
              hedge_threshold = hedge_threshold float tracker;
            }))
            cs
    ]

  -- Every carrier has a tracker, which holds its threshold at the largest float.
  abbrev pub AllWarming : Dict (EmaTracker float) → List (Carrier F) → Type 0
  AllWarming trackers [] = Unit
  AllWarming trackers (c ∷ cs) =
      ((t : EmaTracker float) × (read trackers c.id ≡ some t)
        × (hedge_threshold float t ≡ float.max_float))
      × AllWarming trackers cs

  -- Every carrier has an adapter.
  abbrev pub AllRegistered : {W : Type 0} → AdapterRegistry F W → List (Carrier F) → Type 0
  AllRegistered registry [] = Unit
  AllRegistered {W} registry (c ∷ cs) =
      ((exec_fn : AdapterFunc F W) × (registry_get c.id registry ≡ some exec_fn))
      × AllRegistered registry cs

  pub hedge_entries_found :
      {W : Type 0} (trackers : Dict (EmaTracker float)) (registry : AdapterRegistry F W)
      (cs : List (Carrier F))
      → AllWarming trackers cs
      → AllRegistered registry cs
      → (entries : List (HedgeEntry W)) × (hedge_entries trackers registry cs ≡ some entries)
        × (map (λ (e : HedgeEntry W). e.carrier) entries ≡ cs)
  unfolding hedge_entries
  hedge_entries_found trackers registry [] warming registered = ([], refl, refl)
  hedge_entries_found trackers registry (c ∷ cs) ((t, tracked, held), warming)
        ((f, found), registered) =
      let (entries, made, carriers) = hedge_entries_found trackers registry cs warming registered in
      (
        record { carrier = c; p95_ms = t.state.p95; exec = f } ∷ entries,
        rw (found, tracked, made, hedge_entries) refl,
        ap (λ ds. c ∷ ds) carriers,
      )

  -- No entry lets a hedge start.
  abbrev pub IsHeld : Dict (PendingCarrier F) → Type 0
  IsHeld pending =
      (id : String) (p : PendingCarrier F)
      → read pending id ≡ some p
      → p.hedge_threshold ≡ float.max_float

  write-IsHeld :
      (pending : Dict (PendingCarrier F)) (k : String) (q : PendingCarrier F)
      → IsHeld pending
      → q.hedge_threshold ≡ float.max_float
      → IsHeld (write pending k q)
  write-IsHeld pending k q v held id p h =
      elim_same (same_text k id) (sym (read-write pending k id q) ∙ h)
    where
      elim_same :
          (b : Bool)
          → (if b then some q else read pending id) ≡ some p
          → p.hedge_threshold ≡ float.max_float
      elim_same true e = cc (held, e)
      elim_same false e = v id p e

  pub pending_from-IsHeld :
      (trackers : Dict (EmaTracker float)) (stamp : Carrier F → ℕ)
      (pending : Dict (PendingCarrier F)) (cs : List (Carrier F))
      → AllWarming trackers cs
      → IsHeld pending
      → (made : Dict (PendingCarrier F)) × (pending_from trackers stamp pending cs ≡ some made)
        × IsHeld made
  unfolding pending_from
  pending_from-IsHeld trackers stamp pending [] warming v = (pending, refl, v)
  pending_from-IsHeld trackers stamp pending (c ∷ cs) ((t, tracked, held), warming) v =
      let q : PendingCarrier F = record {
        carrier_id = c.id;
        start_time = stamp c;
        hedge_threshold = hedge_threshold float t;
      } in
      let (made, e, w) =
        pending_from-IsHeld trackers stamp (write pending c.id q) cs warming
          (write-IsHeld pending c.id q v held) in
      (made, rw (tracked, pending_from) e, w)
