-- ===== src/Service/Samples.antt =====
-- The first requests after a start with the built-in carriers, with floats that are the natural numbers.
use text.Mathlib.Text.{◌==◌ as same_text}
use riskforge.Prelude.{
  true, false, ℕ, ◌+◌, ◌-◌, ◌*◌, ◌/◌, ◌≡◌, refl, ap, sym, ◌∙◌, String, Bool, List, [], ◌∷◌, Option,
  none, some, arith, ltb, leb, ◌==◌, OneOf, Dict, read, map, if◌then◌else◌, inl, inr, Bool-cases,
}
use text.Mathlib.TextEquality.{eq_iff}
use riskforge.Prelude.Int.{ℤ, pos, pos_part}
use riskforge.Prelude.Float.{Float, FloatOrder}
use riskforge.Domain.{Carrier}
use riskforge.Breaker.{state_closed}
use riskforge.RateLimiter.{TokenBucket}
use riskforge.Adapter.Mock.{Simulation}
use riskforge.Hedging.Tracker.{EmaTracker, record_all}
use riskforge.Hedging.Candidate.{HedgeCarrier}
use riskforge.Hedging.Monitor.{PendingCarrier, hedge_monitor, monitor_start}
use riskforge.Orchestrator.Eligible.{filter_eligible_carriers}
use riskforge.Orchestrator.Preparation.{HedgeEntry, hedge_entries, pending_from}
use riskforge.Wiring.{with_config_defaults}
use riskforge.Wiring.Carriers.{build_carriers}
use riskforge.Domain.{QuoteRequest}
use riskforge.Orchestrator.Rounds.{Round}
use riskforge.Service.Warmup.{fleet_of, orchestrator_of, prepared_without_hedge}

abbrev naturals : Float
naturals = record {
  F = ℕ;
  le = leb;
  add = ◌+◌;
  sub = ◌-◌;
  mul = ◌*◌;
  div = ◌/◌;
  of_int = pos_part;
  tenth = 0;
  max_float = 10_000_000_000_000;
}

abbrev order : FloatOrder ℕ
order = record {
  lt = ltb;
  same = ◌==◌;
  lt_irrefl = λ a. ground arith;
  lt_trans = λ a b c h k. ground arith;
  same_lt = λ a b c h k. ground arith;
  lt_same = λ a b c h k. ground arith;
  same_trans = λ a b c h k. ground arith;
}

abbrev is_zero : ℕ → Bool
is_zero n = n == 0

-- A bucket is the number of its tokens.
abbrev tokens : TokenBucket ℕ
tokens = record {
  Inner = ℕ;
  new_limiter = λ rate burst. pos_part burst;
  inner_wait = λ n. (n - 1, none);
  allow = λ n. (n - 1, ltb 0 n);
}

abbrev still : Simulation ℕ ℕ
still = record {
  lt = ltb;
  zero = 0;
  clock = λ t. t;
  intn = λ n t. (t, 0);
  random = λ t. (t, 3);
  sleep = λ d t. (t, none);
  intn_below = λ n t h. h;
}

abbrev carriers : List (Carrier ℕ)
carriers = build_carriers naturals

-- Alpha has answered twice.
abbrev recorded : String → List ℤ
recorded id = if same_text id "alpha" then pos 90_000_000 ∷ pos 110_000_000 ∷ [] else []

abbrev advance : Dict (EmaTracker naturals) → Dict (EmaTracker naturals)
advance [] = []
advance (x ∷ d) = record x { value = record_all naturals (recorded x.key) x.value } ∷ advance d

abbrev trackers : Dict (EmaTracker naturals)
trackers = advance (fleet_of naturals is_zero tokens still carriers).trackers

read-advance :
    (d : Dict (EmaTracker naturals)) (id : String) (t : EmaTracker naturals)
    → read d id ≡ some t
    → read (advance d) id ≡ some (record_all naturals (recorded id) t)
unfolding read
read-advance [] id t h = cc h
read-advance (x ∷ d) id t h = elim (Bool-cases (same_text x.key id)) [
  | inl e ↦
      let k = (eq_iff x.key id).0 e in
      let v : x.value ≡ t = ground arith in
      rw e (
        ap (λ name. some (record_all naturals (recorded name) x.value)) k
        ∙ ap (λ u. some (record_all naturals (recorded id) u)) v)
  | inr e ↦ rw e (read-advance d id t (ground arith))
]

-- The entries of the keys, in their order.
abbrev at : List String → Dict (PendingCarrier ℕ) → List (PendingCarrier ℕ)
at [] d = []
at (k ∷ ks) d = elim (read d k) [ none ↦ at ks d | some p ↦ p ∷ at ks d ]

at-read :
    (ks : List String) (d : Dict (PendingCarrier ℕ)) (p : PendingCarrier ℕ)
    → OneOf p (at ks d)
    → (id : String) × (read d id ≡ some p)
at-read [] d p m = absurd m
at-read (k ∷ ks) d p m = pick (read d k) refl (λ m'. at-read ks d p m') m
  where
    pick :
        (o : Option (PendingCarrier ℕ))
        → read d k ≡ o
        → (OneOf p (at ks d) → (id : String) × (read d id ≡ some p))
        → OneOf p (elim o [ none ↦ at ks d | some q ↦ q ∷ at ks d ])
        → (id : String) × (read d id ≡ some p)
    pick none e rest m = rest m
    pick (some q) e rest (inl h) = (k, e ∙ ap some (sym h))
    pick (some q) e rest (inr m) = rest m

abbrev order_of : ℕ → Dict (PendingCarrier ℕ) → List (PendingCarrier ℕ)
order_of now d = at ("beta" ∷ "alpha" ∷ "gamma" ∷ []) d

abbrev stamp : Carrier ℕ → ℕ
stamp c = 1_000

abbrev hedgeable : ℕ → List (HedgeCarrier ℕ)
hedgeable n =
    map (λ (c : Carrier ℕ). record { carrier = c; p95_ms = 200; cb_state = state_closed }) carriers

abbrev acquire : HedgeCarrier ℕ → ℕ → ℕ × Bool
acquire c n = (n - 1, ltb 0 n)

abbrev others : ℕ → ℕ → ℕ
others now n = n

abbrev eligible : List (Carrier ℕ)
eligible =
    filter_eligible_carriers (orchestrator_of naturals is_zero tokens still carriers none).carriers
      [] ("auto" ∷ [])

prepared_without_hedge_example :
    (entries : List (HedgeEntry naturals ℕ)) × (pending : Dict (PendingCarrier ℕ)) × (hedge_entries
        naturals trackers
        (orchestrator_of naturals is_zero tokens still carriers none).registry
        eligible
      ≡ some entries)
    × (map (λ (e : HedgeEntry naturals ℕ). e.carrier) entries ≡ eligible)
    × (pending_from naturals trackers stamp [] eligible ≡ some pending)
    × ((orchestrator_of naturals is_zero tokens still carriers none).hedge_poll_interval
        ≡ pos 5_000_000)
    × ((hedge_monitor naturals order hedgeable acquire others
          (40_000_000 ∷ 900_000_000 ∷ [])
          (λ now. order_of now pending)
          (monitor_start naturals order hedgeable acquire others 5)).fired
        ≡ [])
unfolding with_config_defaults
prepared_without_hedge_example =
    prepared_without_hedge naturals is_zero tokens still order hedgeable acquire others carriers
      none recorded trackers [] ("auto" ∷ []) stamp order_of (40_000_000 ∷ 900_000_000 ∷ []) 5
      (read-advance (fleet_of naturals is_zero tokens still carriers).trackers)
      (refl, (refl, (refl, tt))) (λ now d p m. at-read ("beta" ∷ "alpha" ∷ "gamma" ∷ []) d p m)
      (λ d b. ground arith) (omega arith, (omega arith, tt))

abbrev request : String → QuoteRequest ℕ
request id = record {
  request_id = id;
  client_id = "c";
  coverage_lines = "auto" ∷ [];
  state = "";
  class_code = "";
  estimated_premium = 0;
  timeout = pos 0;
}

-- The answer of beta comes too late, but not that of a hedge, for which the second carrier is called before alpha.
abbrev round : String → Round naturals tokens ℕ
round id = record {
  request = request id;
  moments = λ c. record {
    asked = 5;
    stamp = 9;
    answered = pos 7;
    failed = pos 8;
    delivered = same_text c "alpha";
  };
  hedges = λ c. if same_text c "alpha" then record { candidate = 1; delivered = true } ∷ [] else [];
  late_hedges = record { candidate = 0; delivered = false } ∷ [];
}

abbrev rounds : List (Round naturals tokens ℕ)
rounds = round "r-1" ∷ round "r-2" ∷ []
