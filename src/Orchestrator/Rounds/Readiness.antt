-- ===== src/Orchestrator/Rounds/Readiness.antt =====
-- The maps of the orchestrator over the calls and hedges of a request.
use riskforge.Prelude.{
  subst, ℕ, zero, suc, Bool, true, false, none, Bool-cases, ◌⊎◌, Option, write, ◌+◌, ◌≡◌, refl,
  String, List, [], ◌∷◌, ◌++◌, some, inl, inr, length, All, OneOf, arith, All-append,
}
use riskforge.Prelude.Float.{Float}
use riskforge.Domain.{QuoteResult, Carrier}
use riskforge.Domain.Errors.{Error}
use riskforge.Breaker.{Breaker}
use riskforge.Breaker.Spec.{IsWellFormed}
use riskforge.RateLimiter.{TokenBucket, Limiter, try_acquire}
use riskforge.Adapter.Registry.{AdapterFunc, AdapterRegistry, registry_get}
use riskforge.Orchestrator.Call.{CallState}
use riskforge.Orchestrator.Rounds.{
  Engine, Round, HedgeCall, Calls, carrier_at, and_then, hedge_sent, hedge_one, hedge_all, on_world,
  wait_limiter, call_start, after_call, called, call_one, call_all,
}
use riskforge.Orchestrator.Rounds.OneCall.{Has, Any, write-Has, call_carrier-IsOneCall}

-- The result has the identifier of the request, or a hedge has given it.
abbrev pub Echoes : String → QuoteResult → Type 0
Echoes request_id q = (q.request_id ≡ request_id) ⊎ (q.is_hedged ≡ true)

same_id-Echoes :
    (request_id : String) (sent : List QuoteResult)
    → All (λ (q : QuoteResult). q.request_id ≡ request_id) sent
    → All (Echoes request_id) sent
same_id-Echoes request_id [] h = tt
same_id-Echoes request_id (q ∷ qs) (h, hs) = (inl h, same_id-Echoes request_id qs hs)

module _ (float : Float) (bucket : TokenBucket float.F) (W : Type 0)
    (registry : AdapterRegistry float.F W) where
  open float use {F}

  -- The carrier has all it is called through, with a well-formed breaker.
  pub record IsReady (e : Engine float bucket W) (id : String) : Type 0 where
    pub adapter : (f : AdapterFunc F W) × (registry_get id registry ≡ some f)
    pub breaker : Has IsWellFormed e.breakers id
    pub limiter : Has Any e.limiters id
    pub tracker : Has Any e.trackers id

  abbrev pub Keeps : Engine float bucket W → Engine float bucket W → Type 0
  Keeps e e' = (id : String) → IsReady e id → IsReady e' id

  -- What the calls of `n` carriers have done.
  pub record IsCalled (n : ℕ) (request_id : String) (e e' : Engine float bucket W)
      (sent : List QuoteResult) : Type 0 where
    pub keeps : Keeps e e'
    pub recorded : length e'.metrics ≡ length e.metrics + n
    pub echoed : All (Echoes request_id) sent

  -- The calls come to an end, with none that panics.
  abbrev pub Succeed : ℕ → String → Engine float bucket W → Calls float bucket W → Type 0
  Succeed n request_id e calls =
      (e' : Engine float bucket W) × (sent : List QuoteResult) × (calls ≡ some (e', sent))
      × IsCalled n request_id e e' sent

  after_call-Keeps :
      (id : String) (e : Engine float bucket W) (b : Breaker)
      (s : CallState float (W × Limiter bucket))
      → IsWellFormed b
      → Keeps e (after_call float bucket W id e (b, s))
  after_call-Keeps id e b s v j r = record {
    adapter = r.adapter;
    breaker = write-Has IsWellFormed e.breakers id j b v r.breaker;
    limiter = write-Has Any e.limiters id j s.world.1 tt r.limiter;
    tracker = write-Has Any e.trackers id j s.tracker tt r.tracker;
  }

  nothing-Succeed :
      (request_id : String) (e : Engine float bucket W) → Succeed 0 request_id e (some (e, []))
  nothing-Succeed request_id e =
      (e, [], refl, record { keeps = λ id h. h; recorded = omega arith; echoed = tt })

  and_then-Succeed :
      (n m : ℕ) (request_id : String) (e : Engine float bucket W) (calls : Calls float bucket W)
      (rest : Engine float bucket W → Calls float bucket W)
      → Succeed n request_id e calls
      → ((e' : Engine float bucket W) → Keeps e e' → Succeed m request_id e' (rest e'))
      → Succeed (n + m) request_id e (and_then float bucket W calls rest)
  and_then-Succeed n m request_id e calls rest (e', sent, done, one) more =
      let (e'', arrived, done', two) = more e' one.keeps in
      (
        e'',
        sent ++ arrived,
        rw (done, done') refl,
        record {
          keeps = λ id h. two.keeps id (one.keeps id h);
          recorded = omega (arith, one.recorded, two.recorded);
          echoed = All-append (Echoes request_id) sent arrived one.echoed two.echoed;
        },
      )

  call_one-Succeed :
      (r : Round float bucket W) (id : String) (e : Engine float bucket W)
      → IsReady e id
      → Succeed 1 r.request.request_id e (call_one float bucket W registry r id e)
  unfolding call_one
  call_one-Succeed r id e ready =
      let (f, registered) = ready.adapter in
      let (b, found_b, v) = ready.breaker in
      let (l, found_l, _) = ready.limiter in
      let (t, found_t, _) = ready.tracker in
      let done = called float bucket W registry r id f b l t e in
      let (one, v') =
        call_carrier-IsOneCall float (on_world float bucket W f) (wait_limiter float bucket W)
          r.request id (r.moments id) b (call_start float bucket W e l t) refl v in
      (
        after_call float bucket W id e done,
        done.1.results,
        rw (registered, found_b, found_l, found_t, call_one) refl,
        record {
          keeps = after_call-Keeps id e done.0 done.1 v';
          recorded = one.recorded;
          echoed = same_id-Echoes r.request.request_id done.1.results one.echoed;
        },
      )

  hedge_sent-Echoes :
      (request_id : String) (delivered : Bool) (answer : Error ⊎ QuoteResult)
      → All (Echoes request_id) (hedge_sent float bucket W delivered answer)
  unfolding hedge_sent
  hedge_sent-Echoes request_id delivered (inl e) = tt
  hedge_sent-Echoes request_id true (inr q) = (inr refl, tt)
  hedge_sent-Echoes request_id false (inr q) = tt

  limited-Keeps :
      (id : String) (l : Limiter bucket) (w : W) (e : Engine float bucket W)
      → Keeps e (record e { limiters = write e.limiters id l; world = w })
  limited-Keeps id l w e j r = record {
    adapter = r.adapter;
    breaker = r.breaker;
    limiter = write-Has Any e.limiters id j l tt r.limiter;
    tracker = r.tracker;
  }

  hedge_one-Succeed :
      (r : Round float bucket W) (delivered : Bool) (id : String) (e : Engine float bucket W)
      → IsReady e id
      → Succeed 0 r.request.request_id e (hedge_one float bucket W registry r delivered id e)
  unfolding hedge_one
  hedge_one-Succeed r delivered id e ready =
      let (f, registered) = ready.adapter in
      let (l, found, _) = ready.limiter in
      let (l', acquired) = try_acquire bucket l in
      elim (Bool-cases acquired) [
        | inl granted ↦ (
          record e { limiters = write e.limiters id l'; world = (f r.request e.world).0 },
          hedge_sent float bucket W delivered (f r.request e.world).1,
          rw (registered, found, granted, hedge_one) refl,
          record {
            keeps = limited-Keeps id l' (f r.request e.world).0 e;
            recorded = omega arith;
            echoed = hedge_sent-Echoes r.request.request_id delivered (f r.request e.world).1;
          },
        )
        | inr denied ↦ (
          record e { limiters = write e.limiters id l' },
          [],
          rw (registered, found, denied, hedge_one) refl,
          record { keeps = limited-Keeps id l' e.world e; recorded = omega arith; echoed = tt },
        )
      ]

  carrier_at-OneOf :
      (n : ℕ) (cs : List (Carrier F)) (c : Carrier F)
      → carrier_at float bucket W n cs ≡ some c
      → OneOf c cs
  carrier_at-OneOf n [] c h = cc h
  carrier_at-OneOf zero (d ∷ cs) c h = inl (cc h)
  carrier_at-OneOf (suc n) (d ∷ cs) c h = inr (carrier_at-OneOf n cs c h)

  abbrev pub AllReady : Engine float bucket W → List (Carrier F) → Type 0
  AllReady e cs = (c : Carrier F) → OneOf c cs → IsReady e c.id

  hedge_all-Succeed :
      (r : Round float bucket W) (eligible : List (Carrier F))
      (hs : List (HedgeCall float bucket W)) (e : Engine float bucket W)
      → AllReady e eligible
      → Succeed 0 r.request.request_id e (hedge_all float bucket W registry r eligible hs e)
  unfolding hedge_all
  hedge_all-Succeed r eligible [] e ready = nothing-Succeed r.request.request_id e
  hedge_all-Succeed r eligible (h ∷ hs) e ready =
      and_then-Succeed 0 0 r.request.request_id e _ _
        (hedge_at (carrier_at float bucket W h.candidate eligible) refl)
        (λ e' keeps. hedge_all-Succeed r eligible hs e' (λ c m. keeps c.id (ready c m)))
    where
      hedge_at :
          (found : Option (Carrier F))
          → carrier_at float bucket W h.candidate eligible ≡ found
          → Succeed 0 r.request.request_id e (elim found [
            | none ↦ some (e, [])
            | some c ↦ hedge_one float bucket W registry r h.delivered c.id e
          ])
      hedge_at none k = nothing-Succeed r.request.request_id e
      hedge_at (some c) k =
          hedge_one-Succeed r h.delivered c.id e
            (ready c (carrier_at-OneOf h.candidate eligible c k))

  pub call_all-Succeed :
      (r : Round float bucket W) (eligible cs : List (Carrier F)) (e : Engine float bucket W)
      → AllReady e eligible
      → AllReady e cs
      → Succeed
          (length cs)
          r.request.request_id
          e
          (call_all float bucket W registry r eligible cs e)
  unfolding call_all
  call_all-Succeed r eligible [] e ready able = hedge_all-Succeed r eligible r.late_hedges e ready
  call_all-Succeed r eligible (c ∷ cs) e ready able =
      subst
        (λ n.
          Succeed n r.request.request_id e (call_all float bucket W registry r eligible (c ∷ cs) e))
        (omega arith)
        (and_then-Succeed 0 (1 + length cs) r.request.request_id e _ _
          (hedge_all-Succeed r eligible (r.hedges c.id) e ready)
          (λ e' keeps.
            and_then-Succeed 1 (length cs) r.request.request_id e' _ _
              (call_one-Succeed r c.id e' (keeps c.id (able c (inl refl))))
              (λ e'' keeps'.
                call_all-Succeed r eligible cs e'' (λ d m. keeps' d.id (keeps d.id (ready d m)))
                  (λ d m. keeps' d.id (keeps d.id (able d (inr m)))))))
