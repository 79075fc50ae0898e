-- ===== src/Orchestrator/Sharing.antt =====
-- Overlapping calls of `GetQuotes` in internal/orchestrator/orchestrator.go, one goroutine each, as a step
-- relation. singleflight.Group is a parameter with the laws that its documentation gives: one function
-- runs for a key at a time, and whoever comes meanwhile waits for it. A fan-out has a beginning and an end, and what it does is done at its end;
-- `others` is whatever else changes the state `W`, such as the cleanup. Log lines are left out.
pub mod Flights
pub mod Waits
pub mod Answers
pub mod Progress
mod Samples
use text.Mathlib.Text.{◌==◌ as same_text}
use riskforge.Prelude.{
  ℕ, zero, suc, ◌≡◌, String, Bool, true, false, List, [], ◌∷◌, Option, none, some, ◌⊎◌, inl, inr,
  Dict, if◌then◌else◌, update,
}
use riskforge.Domain.{QuoteRequest, QuoteResult, Carrier}
use riskforge.Domain.Errors.{Error}
use riskforge.Breaker.{Breaker}
use riskforge.Orchestrator.CacheKey.{scoped_key}
use riskforge.Orchestrator.Quotes.{QuoteRepository, Gather, look_up, fan_out}

-- `runner` is the caller whose function runs for a key; `enter` and `leave` are the beginning and the end
-- of a call of `Do` that runs its function.
pub record FlightGroup : Type 1 where
  pub Flights : Type 0
  pub no_flights : Flights
  pub runner : Flights → String → Option ℕ
  pub enter : ℕ → String → Flights → Flights
  pub leave : String → Flights → Flights
  pub no_runner : (k : String) → runner no_flights k ≡ none
  pub runner-enter :
      (i : ℕ) (k wanted : String) (fs : Flights)
      → runner fs k ≡ none
      → runner (enter i k fs) wanted ≡ (if same_text k wanted then some i else runner fs wanted)
  pub runner-leave :
      (k wanted : String) (fs : Flights)
      → runner (leave k fs) wanted ≡ (if same_text k wanted then none else runner fs wanted)

-- A call of `GetQuotes`: before its lookup, after a miss, in its own fan-out inside singleflight, in one outside of
-- it, waiting for the fan-out of another call, and returned.
pub data Pc : Type 0 where
  arrived missed leading alone : Pc
  following : ℕ → Pc
  answered : (Error ⊎ List QuoteResult) → Pc

-- A lookup or a fan-out of a call, and the state in which it was made.
pub record Access (W : Type 0) : Type 0 where
  pub caller : ℕ
  pub before : W

-- `hits` and `runs` are the lookups that found quotes and the fan-outs, the newest first; `waited` tells for which
-- call a call has waited.
pub record Sharing (Flights W : Type 0) : Type 0 where
  pub pc : ℕ → Pc
  pub flights : Flights
  pub world : W
  pub hits : List (Access W)
  pub runs : List (Access W)
  pub waited : ℕ → Option ℕ

module _ {F W : Type 0} (repo : Option (QuoteRepository W)) (gather : Gather F W)
    (carriers : List (Carrier F)) (breakers : W → Dict Breaker) (request : ℕ → QuoteRequest F)
    (group : FlightGroup) where
  open group use {Flights, no_flights, runner, enter, leave}

  abbrev pub key : ℕ → String
  key i = scoped_key (request i)

  -- The fan-out of a call, with the breakers as they are then.
  abbrev pub flight : ℕ → W → W × (Error ⊎ List QuoteResult)
  flight i w = fan_out repo gather carriers (breakers w) (request i) w

  abbrev pub at_first : W → Sharing Flights W
  at_first w = record {
    pc = λ i. arrived;
    flights = no_flights;
    world = w;
    hits = [];
    runs = [];
    waited = λ i. none;
  }

  -- The call has looked up the cache.
  abbrev pub looked_up : ℕ → Sharing Flights W → W × Option (List QuoteResult) → Sharing Flights W
  looked_up i s (w, none) = record s { pc = update s.pc i missed; world = w }
  looked_up i s (w, some quotes) = record s {
    pc = update s.pc i (answered (inr quotes));
    world = w;
    hits = record { caller = i; before = s.world } ∷ s.hits;
  }

  -- The fan-out of the call has returned.
  abbrev pub flown : ℕ → Sharing Flights W → W × (Error ⊎ List QuoteResult) → Sharing Flights W
  flown i s (w, answer) = record s {
    pc = update s.pc i (answered answer);
    world = w;
    runs = record { caller = i; before = s.world } ∷ s.runs;
  }

  pub data SharingStep (s : Sharing Flights W) : Sharing Flights W → Type 0 where
    looks_up :
        (i : ℕ)
        → s.pc i ≡ arrived
        → SharingStep s (looked_up i s (look_up repo (request i) s.world))
    -- Without an identifier there is no singleflight, and any number of such calls may be in their fan-outs.
    flies_alone :
        (i : ℕ)
        → s.pc i ≡ missed
        → same_text (request i).request_id "" ≡ true
        → SharingStep s (record s { pc = update s.pc i alone })
    lands_alone : (i : ℕ) → s.pc i ≡ alone → SharingStep s (flown i s (flight i s.world))
    takes_off :
        (i : ℕ)
        → s.pc i ≡ missed
        → same_text (request i).request_id "" ≡ false
        → runner s.flights (key i) ≡ none
        → SharingStep s
            (record s { pc = update s.pc i leading; flights = enter i (key i) s.flights })
    joins :
        (i j : ℕ)
        → s.pc i ≡ missed
        → same_text (request i).request_id "" ≡ false
        → runner s.flights (key i) ≡ some j
        → SharingStep s
            (record s { pc = update s.pc i (following j); waited = update s.waited i (some j) })
    lands :
        (i : ℕ)
        → s.pc i ≡ leading
        → SharingStep s
            (record (flown i s (flight i s.world)) { flights = leave (key i) s.flights })
    -- The value of the function that the call has waited for.
    shares :
        (i j : ℕ) (answer : Error ⊎ List QuoteResult)
        → s.pc i ≡ following j
        → s.pc j ≡ answered answer
        → SharingStep s (record s { pc = update s.pc i (answered answer) })
    others : (w : W) → SharingStep s (record s { world = w })

  -- `SharingSteps s k t`: `k` steps lead from `s` to `t`.
  pub data SharingSteps (s : Sharing Flights W) : ℕ → Sharing Flights W → Type 0 where
    none_yet : SharingSteps s zero s
    step :
        {k : ℕ} {t u : Sharing Flights W}
        → SharingSteps s k t
        → SharingStep t u
        → SharingSteps s (suc k) u
