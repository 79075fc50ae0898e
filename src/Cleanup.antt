-- ===== src/Cleanup.antt =====
-- `Ticker` of internal/cleanup/cleanup.go as a step relation: the goroutine in `Start`, any number of
-- goroutines that call `Stop`, and the context. `Start` is called once at most, as its comment asks, and
-- DeleteExpired of the repository is what `delete_expired` does to a state `W`. Log lines are left out.
pub mod Stopping
mod Tests
use riskforge.Prelude.{
  ℕ, zero, suc, ◌+◌, ◌≡◌, ◌<◌, ◌⊎◌, Bool, true, false, List, [], ◌∷◌, Option, Turn,
}
use riskforge.Domain.Errors.{Error}

-- `Start`: before the call, at the select, in `sweep`, and after `close(done)`.
pub data Loop : Type 0 where
  not_started selecting sweeping finished : Loop

-- `Stop`: before `stopOnce.Do`, at the receive from `done`, and after it.
pub data Stopper : Type 0 where
  calling waiting stopped : Stopper

-- `once` is the state of the sync.Once, `closes` counts the calls of `close(stop)`, and `sweeps` the calls of
-- DeleteExpired.
pub record Ticker (W : Type 0) : Type 0 where
  pub loop : Loop
  pub stoppers : List Stopper
  pub once : Bool
  pub closes : ℕ
  pub cancelled : Bool
  pub sweeps : ℕ
  pub world : W

-- What `New` makes.
abbrev pub new : {W : Type 0} → W → Ticker W
new w = record {
  loop = not_started;
  stoppers = [];
  once = false;
  closes = 0;
  cancelled = false;
  sweeps = 0;
  world = w;
}

module _ {W : Type 0} (delete_expired : W → W × (Error ⊎ ℕ)) where
  pub data TickerStep (t : Ticker W) : Ticker W → Type 0 where
    starts : t.loop ≡ not_started → TickerStep t (record t { loop = selecting })
    context_ends : TickerStep t (record t { cancelled = true })
    -- What other goroutines do to the state.
    others : (w : W) → TickerStep t (record t { world = w })
    -- The cases of the select. More than one may be ready.
    ticks : t.loop ≡ selecting → TickerStep t (record t { loop = sweeping })
    loop_stops : t.loop ≡ selecting → 0 < t.closes → TickerStep t (record t { loop = finished })
    loop_cancelled :
        t.loop ≡ selecting → t.cancelled ≡ true → TickerStep t (record t { loop = finished })
    -- `sweep`, with or without an error.
    sweeps_once :
        t.loop ≡ sweeping
        → TickerStep t (record t {
          loop = selecting;
          sweeps = t.sweeps + 1;
          world = (delete_expired t.world).0;
        })
    stop_called : TickerStep t (record t { stoppers = calling ∷ t.stoppers })
    -- `stopOnce.Do`: the first call closes the channel, the others do nothing.
    closes_stop :
        {ss : List Stopper}
        → Turn t.stoppers calling waiting ss
        → t.once ≡ false
        → TickerStep t (record t { stoppers = ss; once = true; closes = t.closes + 1 })
    finds_closed :
        {ss : List Stopper}
        → Turn t.stoppers calling waiting ss
        → t.once ≡ true
        → TickerStep t (record t { stoppers = ss })
    -- The receive from `done`, which `Start` closes when it returns.
    stop_returns :
        {ss : List Stopper}
        → Turn t.stoppers waiting stopped ss
        → t.loop ≡ finished
        → TickerStep t (record t { stoppers = ss })

  -- `TickerSteps t k u`: `k` steps lead from `t` to `u`.
  pub data TickerSteps (t : Ticker W) : ℕ → Ticker W → Type 0 where
    none_yet : TickerSteps t zero t
    step : {k : ℕ} {u v : Ticker W} → TickerSteps t k u → TickerStep u v → TickerSteps t (suc k) v
