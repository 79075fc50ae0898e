-- ===== src/Orchestrator/Sharing/Flights.antt =====
-- The fan-outs that overlapping calls of `GetQuotes` in internal/orchestrator/orchestrator.go run, and
-- the calls that wait for them.
use text.Mathlib.Text.{◌==◌ as same_text}
use text.Mathlib.TextEquality.{eq_iff}
use text.Mathlib.TextPositions.{eq_refl}
use riskforge.Prelude.{
  ℕ, ◌≡◌, ◌≢◌, refl, true, false, ap, String, List, ◌∷◌, Option, none, some, ◌⊎◌, inr, Dict, update,
  arith,
}
use riskforge.Domain.{QuoteRequest, QuoteResult, Carrier}
use riskforge.Domain.Errors.{Error}
use riskforge.Breaker.{Breaker}
use riskforge.Orchestrator.Quotes.{QuoteRepository, Gather, look_up}
use riskforge.Orchestrator.Sharing.{
  FlightGroup, Pc, arrived, missed, leading, alone, following, answered, Access, Sharing, key,
  at_first, looked_up, SharingStep, looks_up, flies_alone, lands_alone, takes_off, joins, lands,
  shares, others, SharingSteps, none_yet, step,
}

module _ {F W : Type 0} (repo : Option (QuoteRepository W)) (gather : Gather F W)
    (carriers : List (Carrier F)) (breakers : W → Dict Breaker) (request : ℕ → QuoteRequest F)
    (group : FlightGroup) where
  open group use {Flights, no_flights, runner, enter, leave, no_runner, runner-enter, runner-leave}

  abbrev key_of_call : ℕ → String
  key_of_call i = key repo gather carriers breakers request group i

  abbrev State : Type 0
  State = Sharing Flights W

  -- A call that is in its fan-out.
  abbrev pub IsFlying : Pc → Type 0
  IsFlying leading = Unit
  IsFlying alone = Unit
  IsFlying arrived = ⊥
  IsFlying missed = ⊥
  IsFlying (following j) = ⊥
  IsFlying (answered a) = ⊥

  -- The call `j` runs its fan-out inside singleflight, or has its answer.
  abbrev pub HasFlown : Pc → Type 0
  HasFlown leading = Unit
  HasFlown (answered a) = Unit
  HasFlown arrived = ⊥
  HasFlown missed = ⊥
  HasFlown alone = ⊥
  HasFlown (following j) = ⊥

  pub record IsShared (s : State) : Type 0 where
    pub led : (i : ℕ) → s.pc i ≡ leading → runner s.flights (key_of_call i) ≡ some i
    pub runs_led :
        (k : String) (i : ℕ)
        → runner s.flights k ≡ some i
        → (s.pc i ≡ leading) × (key_of_call i ≡ k)
    pub unnamed : (i : ℕ) → s.pc i ≡ alone → same_text (request i).request_id "" ≡ true
    pub followed :
        (i j : ℕ) → s.pc i ≡ following j → (key_of_call j ≡ key_of_call i) × HasFlown (s.pc j)

  pub at_first-IsShared :
      (w : W) → IsShared (at_first repo gather carriers breakers request group w)
  at_first-IsShared w = record {
    led = λ i e. cc e;
    runs_led = λ k i e. cc (e, no_runner k);
    unnamed = λ i e. cc e;
    followed = λ i j e. cc e;
  }

  -- A call that was not in a fan-out goes to a place that is not one either.
  moves-IsShared :
      (s : State) (i : ℕ) (p : Pc) (w : W) (hits runs : List (Access W)) (waited : ℕ → Option ℕ)
      → IsShared s
      → s.pc i ≢ leading
      → p ≢ leading
      → ((j : ℕ) → p ≡ following j → (key_of_call j ≡ key_of_call i) × HasFlown (s.pc j))
      → (HasFlown (s.pc i) → HasFlown p)
      → (p ≡ alone → same_text (request i).request_id "" ≡ true)
      → IsShared (record {
        pc = update s.pc i p;
        flights = s.flights;
        world = w;
        hits = hits;
        runs = runs;
        waited = waited;
      })
  moves-IsShared s i p w hits runs waited v not_led not_leading follows flies sets_out = record {
    led = λ j e. ground (arith, v.led j);
    runs_led = λ k j e. ground (arith, v.runs_led k j);
    unnamed = λ j e. ground (arith, v.unnamed j);
    followed = λ j l e. ground (arith, v.followed j l, follows l);
  }

  one_leader :
      (s : State) (i j : ℕ)
      → IsShared s
      → s.pc i ≡ leading
      → s.pc j ≡ leading
      → key_of_call i ≡ key_of_call j
      → i ≡ j
  one_leader s i j v e h same = cc (v.led i e, v.led j h, ap (runner s.flights) same)

  takes_off-IsShared :
      (s : State) (i : ℕ)
      → IsShared s
      → s.pc i ≡ missed
      → runner s.flights (key_of_call i) ≡ none
      → IsShared
          (record s { pc = update s.pc i leading; flights = enter i (key_of_call i) s.flights })
  takes_off-IsShared s i v e free = record {
    led = λ j h. ground (
      arith,
      v.led j,
      runner-enter i (key_of_call i) (key_of_call j) s.flights free,
      eq_refl (key_of_call i),
      eq_iff (key_of_call i) (key_of_call j),
    );
    runs_led = λ k j h. ground (
      arith,
      v.runs_led k j,
      runner-enter i (key_of_call i) k s.flights free,
      eq_iff (key_of_call i) k,
    );
    unnamed = λ j h. ground (arith, v.unnamed j);
    followed = λ j l h. ground (arith, v.followed j l);
  }

  lands-IsShared :
      (s : State) (i : ℕ) (a : Error ⊎ List QuoteResult) (w : W) (runs : List (Access W))
      → IsShared s
      → s.pc i ≡ leading
      → IsShared (record {
        pc = update s.pc i (answered a);
        flights = leave (key_of_call i) s.flights;
        world = w;
        hits = s.hits;
        runs = runs;
        waited = s.waited;
      })
  lands-IsShared s i a w runs v e = record {
    led = λ j h. ground (
      arith,
      v.led j,
      runner-leave (key_of_call i) (key_of_call j) s.flights,
      eq_iff (key_of_call i) (key_of_call j),
      one_leader s i j v e,
    );
    runs_led = λ k j h.
        ground (
          arith,
          v.runs_led k j,
          runner-leave (key_of_call i) k s.flights,
          eq_iff (key_of_call i) k,
        );
    unnamed = λ j h. ground (arith, v.unnamed j);
    followed = λ j l h. ground (arith, v.followed j l);
  }

  looked_up-IsShared :
      (s : State) (i : ℕ) (found : W × Option (List QuoteResult))
      → IsShared s
      → s.pc i ≡ arrived
      → IsShared (looked_up repo gather carriers breakers request group i s found)
  looked_up-IsShared s i (w, none) v e =
      moves-IsShared s i missed w s.hits s.runs s.waited v (λ h. cc (e, h)) (λ h. cc h)
        (λ j h. cc h) (λ h. ground arith) (λ h. cc h)
  looked_up-IsShared s i (w, some quotes) v e =
      moves-IsShared s i (answered (inr quotes)) w
        (record { caller = i; before = s.world } ∷ s.hits) s.runs s.waited v (λ h. cc (e, h))
        (λ h. cc h) (λ j h. cc h) (λ h. tt) (λ h. cc h)

  pub SharingStep-IsShared :
      {s t : State}
      → SharingStep repo gather carriers breakers request group s t
      → IsShared s
      → IsShared t
  SharingStep-IsShared {s} (looks_up i e) v =
      looked_up-IsShared s i (look_up repo (request i) s.world) v e
  SharingStep-IsShared {s} (flies_alone i e named) v =
      moves-IsShared s i alone s.world s.hits s.runs s.waited v (λ h. cc (e, h)) (λ h. cc h)
        (λ j h. cc h) (λ h. ground arith) (λ h. named)
  SharingStep-IsShared {s} (lands_alone i e) v =
      moves-IsShared s i _ _ s.hits _ s.waited v (λ h. cc (e, h)) (λ h. cc h) (λ j h. cc h)
        (λ h. tt) (λ h. cc h)
  SharingStep-IsShared {s} (takes_off i e named free) v = takes_off-IsShared s i v e free
  SharingStep-IsShared {s} (joins i j e named busy) v =
      let (l, k) = v.runs_led (key_of_call i) j busy in
      moves-IsShared s i (following j) s.world s.hits s.runs _ v (λ h. cc (e, h)) (λ h. cc h)
        (λ j' h. ground (arith, l, k)) (λ h. ground arith) (λ h. cc h)
  SharingStep-IsShared {s} (lands i e) v = lands-IsShared s i _ _ _ v e
  SharingStep-IsShared {s} (shares i j answer e done) v =
      moves-IsShared s i (answered answer) s.world s.hits s.runs s.waited v (λ h. cc (e, h))
        (λ h. cc h) (λ j' h. cc h) (λ h. tt) (λ h. cc h)
  SharingStep-IsShared {s} (others w) v = record {
    led = v.led;
    runs_led = v.runs_led;
    unnamed = v.unnamed;
    followed = v.followed;
  }

  pub SharingSteps-IsShared :
      {s t : State} {k : ℕ}
      → SharingSteps repo gather carriers breakers request group s k t
      → IsShared s
      → IsShared t
  SharingSteps-IsShared none_yet v = v
  SharingSteps-IsShared (step r m) v = SharingStep-IsShared m (SharingSteps-IsShared r v)

  flying_led :
      (s : State) (i : ℕ) (p : Pc)
      → IsShared s
      → s.pc i ≡ p
      → IsFlying p
      → same_text (request i).request_id "" ≡ false
      → s.pc i ≡ leading
  flying_led s i leading v e f named = e
  flying_led s i alone v e f named = cc (v.unnamed i e, named)
  flying_led s i arrived v e f named = absurd f
  flying_led s i missed v e f named = absurd f
  flying_led s i (following j) v e f named = absurd f
  flying_led s i (answered a) v e f named = absurd f

  -- No two calls with an identifier are in their fan-outs under one key at the same time, in whatever order calls come,
  -- look up, run their fan-outs and wait; and a call that waits, waits for one under its own key that is running or
  -- has its answer. Calls without an identifier may run their fan-outs meanwhile.
  pub one_flight :
      (w : W) (n : ℕ) (s : State)
      → SharingSteps repo gather carriers breakers request group
          (at_first repo gather carriers breakers request group w)
          n
          s
      → ((i j : ℕ)
          → IsFlying (s.pc i)
          → IsFlying (s.pc j)
          → same_text (request i).request_id "" ≡ false
          → same_text (request j).request_id "" ≡ false
          → key_of_call i ≡ key_of_call j
          → i ≡ j)
        × ((i j : ℕ) → s.pc i ≡ following j → (key_of_call j ≡ key_of_call i) × HasFlown (s.pc j))
  one_flight w n s r =
      let v = SharingSteps-IsShared r (at_first-IsShared w) in
      (
        λ i j e h named named' same.
            one_leader s i j v (flying_led s i (s.pc i) v refl e named)
              (flying_led s j (s.pc j) v refl h named') same,
        v.followed,
      )
