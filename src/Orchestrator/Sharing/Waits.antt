-- ===== src/Orchestrator/Sharing/Waits.antt =====
-- For whom overlapping calls of `GetQuotes` in internal/orchestrator/orchestrator.go wait.
use riskforge.Prelude.{
  ℕ, ◌≡◌, ◌≢◌, sym, subst, String, List, Option, none, some, ◌⊎◌, inr, Dict, update, arith,
}
use riskforge.Domain.{QuoteRequest, QuoteResult, Carrier}
use riskforge.Domain.Errors.{Error}
use riskforge.Breaker.{Breaker}
use riskforge.Orchestrator.Quotes.{QuoteRepository, Gather, look_up}
use riskforge.Orchestrator.Sharing.{
  FlightGroup, Pc, arrived, missed, leading, alone, following, answered, Sharing, key, flight,
  looked_up, SharingStep, looks_up, flies_alone, lands_alone, takes_off, joins, lands, shares,
  others,
}
use riskforge.Orchestrator.Sharing.Flights.{IsShared}

-- A call that has not waited, and may come to.
abbrev pub IsFresh : Pc → Type 0
IsFresh arrived = Unit
IsFresh missed = Unit
IsFresh leading = Unit
IsFresh alone = Unit
IsFresh (following j) = ⊥
IsFresh (answered a) = ⊥

module _ {F W : Type 0} (repo : Option (QuoteRepository W)) (gather : Gather F W)
    (carriers : List (Carrier F)) (breakers : W → Dict Breaker) (request : ℕ → QuoteRequest F)
    (group : FlightGroup) where
  open group use {Flights, no_flights, runner, enter, leave}

  abbrev key_of_call : ℕ → String
  key_of_call i = key repo gather carriers breakers request group i

  abbrev fly : ℕ → W → W × (Error ⊎ List QuoteResult)
  fly i w = flight repo gather carriers breakers request group i w

  abbrev State : Type 0
  State = Sharing Flights W

  -- For whom a call waits, and that the other one has never waited.
  pub record IsWaiting (pc : ℕ → Pc) (waited : ℕ → Option ℕ) : Type 0 where
    pub fresh : (i : ℕ) → IsFresh (pc i) → waited i ≡ none
    pub waits : (i j : ℕ) → pc i ≡ following j → (waited i ≡ some j) × (waited j ≡ none)

  moves-IsWaiting :
      (pc : ℕ → Pc) (waited : ℕ → Option ℕ) (i : ℕ) (p : Pc)
      → IsWaiting pc waited
      → (IsFresh p → IsFresh (pc i))
      → ((j : ℕ) → p ≢ following j)
      → IsWaiting (update pc i p) waited
  moves-IsWaiting pc waited i p v stays not_waiting = record {
    fresh = λ k f. ground (arith, v.fresh k, v.fresh i, stays);
    waits = λ k j e. ground (arith, v.waits k j, not_waiting j);
  }

  joins-IsWaiting :
      (s : State) (i j : ℕ)
      → IsShared repo gather carriers breakers request group s
      → IsWaiting s.pc s.waited
      → s.pc i ≡ missed
      → s.pc j ≡ leading
      → IsWaiting (update s.pc i (following j)) (update s.waited i (some j))
  joins-IsWaiting s i j d v e busy =
      let clear : s.waited j ≡ none = v.fresh j (subst IsFresh (sym busy) tt) in
      let other : i ≢ j = λ h. cc (e, busy, h) in
      record {
        fresh = λ k f. ground (arith, v.fresh k);
        waits = λ k l h. ground (arith, v.waits k l, clear, other, d.followed k l, e);
      }

  looked_up-IsWaiting :
      (s : State) (i : ℕ) (found : W × Option (List QuoteResult))
      → IsWaiting s.pc s.waited
      → s.pc i ≡ arrived
      → IsWaiting
          (looked_up repo gather carriers breakers request group i s found).pc
          (looked_up repo gather carriers breakers request group i s found).waited
  looked_up-IsWaiting s i (w, none) v e =
      moves-IsWaiting s.pc s.waited i missed v (λ f. subst IsFresh (sym e) tt) (λ j h. cc h)
  looked_up-IsWaiting s i (w, some quotes) v e =
      moves-IsWaiting s.pc s.waited i (answered (inr quotes)) v (λ f. absurd f) (λ j h. cc h)

  pub SharingStep-IsWaiting :
      {s t : State}
      → SharingStep repo gather carriers breakers request group s t
      → IsShared repo gather carriers breakers request group s
      → IsWaiting s.pc s.waited
      → IsWaiting t.pc t.waited
  SharingStep-IsWaiting {s} (looks_up i e) d v =
      looked_up-IsWaiting s i (look_up repo (request i) s.world) v e
  SharingStep-IsWaiting {s} (flies_alone i e named) d v =
      moves-IsWaiting s.pc s.waited i alone v (λ f. subst IsFresh (sym e) tt) (λ j h. cc h)
  SharingStep-IsWaiting {s} (lands_alone i e) d v =
      moves-IsWaiting s.pc s.waited i (answered (fly i s.world).1) v (λ f. absurd f) (λ j h. cc h)
  SharingStep-IsWaiting {s} (takes_off i e named free) d v =
      moves-IsWaiting s.pc s.waited i leading v (λ f. subst IsFresh (sym e) tt) (λ j h. cc h)
  SharingStep-IsWaiting {s} (joins i j e named busy) d v =
      joins-IsWaiting s i j d v e (d.runs_led (key_of_call i) j busy).0
  SharingStep-IsWaiting {s} (lands i e) d v =
      moves-IsWaiting s.pc s.waited i (answered (fly i s.world).1) v (λ f. absurd f) (λ j h. cc h)
  SharingStep-IsWaiting {s} (shares i j answer e done) d v =
      moves-IsWaiting s.pc s.waited i (answered answer) v (λ f. absurd f) (λ j h. cc h)
  SharingStep-IsWaiting {s} (others w) d v = v
