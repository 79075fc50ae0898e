-- ===== src/Middleware/Concurrency.antt =====
-- `LimitConcurrency` of internal/middleware/concurrency.go: the requests that arrive, one goroutine each,
-- and the semaphore channel, whose sends and receives are atomic. The handler behind is what happens
-- between `serving` and `leaving`; it may panic, since the receive is deferred.
use riskforge.Prelude.{
  ◌∙◌, Turn, total, Turn-total, ℕ, zero, suc, ◌+◌, ◌<◌, ◌≤◌, ◌≡◌, refl, String, List, [], ◌∷◌,
  arith,
}

-- A 503 with its headers, as in the default case.
pub record Rejection : Type 0 where
  pub status : ℕ
  pub content_type : String
  pub retry_after : String
  pub error : String

abbrev pub service_unavailable : Rejection
service_unavailable = record {
  status = 503;
  content_type = "application/json";
  retry_after = "1";
  error = "SERVICE_UNAVAILABLE: too many concurrent requests";
}

pub data Handling : Type 0 where
  arrived serving leaving finished : Handling
  rejected : Rejection → Handling

-- `sem` counts the elements in the channel of capacity `max`.
pub record Gate : Type 0 where
  pub max : ℕ
  pub sem : ℕ
  pub handlings : List Handling

pub data GateStep (g : Gate) : Gate → Type 0 where
  arrives : GateStep g (record g { handlings = arrived ∷ g.handlings })
  admitted :
      {hs : List Handling}
      → Turn g.handlings arrived serving hs
      → g.sem < g.max
      → GateStep g (record g { handlings = hs; sem = g.sem + 1 })
  -- The default case is taken if the send would block.
  refused :
      {hs : List Handling}
      → Turn g.handlings arrived (rejected service_unavailable) hs
      → g.max ≤ g.sem
      → GateStep g (record g { handlings = hs })
  handler_returns :
      {hs : List Handling}
      → Turn g.handlings serving leaving hs
      → GateStep g (record g { handlings = hs })
  -- The deferred receive, which would wait for an element.
  leaves :
      {hs : List Handling} {n : ℕ}
      → Turn g.handlings leaving finished hs
      → g.sem ≡ suc n
      → GateStep g (record g { handlings = hs; sem = n })

-- `GateSteps g k h`: `k` steps lead from `g` to `h`.
pub data GateSteps (g : Gate) : ℕ → Gate → Type 0 where
  none_yet : GateSteps g zero g
  step : {k : ℕ} {h i : Gate} → GateSteps g k h → GateStep h i → GateSteps g (suc k) i

abbrev pub open_gate : ℕ → Gate
open_gate max = record { max = max; sem = 0; handlings = [] }

-- A request that the handler works on, or that has not yet freed its place.
abbrev pub in_flight : Handling → ℕ
in_flight arrived = 0
in_flight serving = 1
in_flight leaving = 1
in_flight finished = 0
in_flight (rejected r) = 0

record IsTight (g : Gate) : Type 0 where
  held : g.sem ≡ total in_flight g.handlings
  bounded : g.sem ≤ g.max

GateStep-IsTight : {g h : Gate} → GateStep g h → IsTight g → IsTight h
GateStep-IsTight arrives v = record { held = omega (arith, v.held); bounded = v.bounded }
GateStep-IsTight (admitted t l) v = record {
  held = omega (arith, v.held, Turn-total in_flight t);
  bounded = omega (arith, l);
}
GateStep-IsTight (refused t l) v = record {
  held = omega (arith, v.held, Turn-total in_flight t);
  bounded = v.bounded;
}
GateStep-IsTight (handler_returns t) v = record {
  held = omega (arith, v.held, Turn-total in_flight t);
  bounded = v.bounded;
}
GateStep-IsTight (leaves t e) v = record {
  held = omega (arith, v.held, e, Turn-total in_flight t);
  bounded = omega (arith, v.bounded, e);
}

GateStep-max : {g h : Gate} → GateStep g h → h.max ≡ g.max
GateStep-max arrives = refl
GateStep-max (admitted t l) = refl
GateStep-max (refused t l) = refl
GateStep-max (handler_returns t) = refl
GateStep-max (leaves t e) = refl

GateSteps-IsTight : {g h : Gate} {k : ℕ} → GateSteps g k h → IsTight g → IsTight h × (h.max ≡ g.max)
GateSteps-IsTight none_yet v = (v, refl)
GateSteps-IsTight (step r st) v =
    let (w, e) = GateSteps-IsTight r v in (GateStep-IsTight st w, GateStep-max st ∙ e)

-- A request whose handler has returned.
abbrev pub departing : Handling → ℕ
departing arrived = 0
departing serving = 0
departing leaving = 1
departing finished = 0
departing (rejected r) = 0

departing-in_flight : (hs : List Handling) → total departing hs ≤ total in_flight hs
departing-in_flight [] = omega arith
departing-in_flight (arrived ∷ hs) = omega (arith, departing-in_flight hs)
departing-in_flight (serving ∷ hs) = omega (arith, departing-in_flight hs)
departing-in_flight (leaving ∷ hs) = omega (arith, departing-in_flight hs)
departing-in_flight (finished ∷ hs) = omega (arith, departing-in_flight hs)
departing-in_flight (rejected r ∷ hs) = omega (arith, departing-in_flight hs)

-- Whatever the order in which requests arrive, are served and leave: at most `max` of them are in
-- flight, and the semaphore has one element for each of these and none for any other. So the deferred
-- receives of the requests that are leaving find an element each.
pub in_flight_bounded :
    (max k : ℕ) (g : Gate)
    → GateSteps (open_gate max) k g
    → (total in_flight g.handlings ≤ max)
      × (g.sem ≡ total in_flight g.handlings)
      × (total departing g.handlings ≤ g.sem)
in_flight_bounded max k g run =
    let (v, e) = GateSteps-IsTight run (record { held = refl; bounded = omega arith }) in
    (
      omega (arith, v.held, v.bounded, e),
      v.held,
      omega (arith, v.held, departing-in_flight g.handlings),
    )
