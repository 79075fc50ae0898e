-- ===== src/Orchestrator/FanOut.antt =====
-- The goroutines of one `fanOut` of internal/orchestrator/orchestrator.go, with those that
-- `hedgeMonitor` of internal/orchestrator/hedging.go starts: who may move next. A carrier call is one
-- step, from `calling` to a result that waits for the channel or to the end; which of the two, and
-- with what result, is open.
pub mod Room
pub mod Ending
mod Samples
use riskforge.Prelude.{
  Turn, total, replicate, ℕ, zero, suc, ◌+◌, ◌*◌, ◌<◌, ◌≡◌, ◌⊎◌, Bool, true, false, List, [], ◌∷◌,
  ◌++◌, length, arith,
}
use riskforge.Domain.{QuoteResult}

-- A goroutine that calls a carrier: a primary one, or a hedge.
pub data Sender : Type 0 where
  calling : Sender
  sending : QuoteResult → Sender
  ended : Sender

-- `hedgeMonitor`: in its loop, in the deferred wait for its hedges, after `close(hedgeDone)`.
pub data Monitor : Type 0 where
  polling draining done : Monitor

-- The goroutine that ends the fan-out: in `g.Wait()`, after `hedgeCancel()`, after `close(results)`.
pub data Closer : Type 0 where
  waiting cancelling closed : Closer

-- `channel` and `received` have the oldest first. `hedged` has the flag of `alreadyHedged` for each
-- pending carrier. `sent` lists what was put into the channel.
pub record FanOut : Type 0 where
  pub primaries : List Sender
  pub hedges : List Sender
  pub hedged : List Bool
  pub monitor : Monitor
  pub closer : Closer
  pub capacity : ℕ
  pub channel : List QuoteResult
  pub sent : List QuoteResult
  pub received : List QuoteResult
  pub expired : Bool
  pub returned : Bool

-- Who still may put a result into the channel.
abbrev pub load : Sender → ℕ
load calling = 1
load (sending r) = 1
load ended = 0

abbrev pub unhedged : Bool → ℕ
unhedged true = 0
unhedged false = 1

abbrev pub put : QuoteResult → FanOut → FanOut
put r s = record s { channel = s.channel ++ (r ∷ []); sent = s.sent ++ (r ∷ []) }

pub data Step (s : FanOut) : FanOut → Type 0 where
  -- The deadline of the request passes.
  deadline : s.expired ≡ false → Step s (record s { expired = true })
  primary_answers :
      {ps : List Sender} (r : QuoteResult)
      → Turn s.primaries calling (sending r) ps
      → Step s (record s { primaries = ps })
  primary_fails :
      {ps : List Sender} → Turn s.primaries calling ended ps → Step s (record s { primaries = ps })
  -- The two cases of the select in `callCarrier`.
  primary_sends :
      {ps : List Sender} (r : QuoteResult)
      → Turn s.primaries (sending r) ended ps
      → length s.channel < s.capacity
      → Step s (record (put r s) { primaries = ps })
  primary_drops :
      {ps : List Sender} (r : QuoteResult)
      → Turn s.primaries (sending r) ended ps
      → s.expired ≡ true
      → Step s (record s { primaries = ps })
  -- A pending carrier that has no hedge yet is given one. When the threshold, the candidates and the limiters allow it
  -- is left open here; Hedging/Monitor.antt has them.
  hedge_fires :
      {fs : List Bool}
      → s.monitor ≡ polling
      → Turn s.hedged false true fs
      → Step s (record s { hedged = fs; hedges = calling ∷ s.hedges })
  hedge_answers :
      {hs : List Sender} (r : QuoteResult)
      → Turn s.hedges calling (sending (record r { is_hedged = true })) hs
      → Step s (record s { hedges = hs })
  hedge_fails :
      {hs : List Sender} → Turn s.hedges calling ended hs → Step s (record s { hedges = hs })
  hedge_sends :
      {hs : List Sender} (r : QuoteResult)
      → Turn s.hedges (sending r) ended hs
      → length s.channel < s.capacity
      → Step s (record (put r s) { hedges = hs })
  hedge_drops :
      {hs : List Sender} (r : QuoteResult)
      → Turn s.hedges (sending r) ended hs
      → (s.expired ≡ true) ⊎ (s.closer ≡ cancelling)
      → Step s (record s { hedges = hs })
  -- The loop of the monitor ends: its context is done, or every pending carrier has its hedge.
  monitor_returns :
      s.monitor ≡ polling
      → (s.expired ≡ true) ⊎ (s.closer ≡ cancelling) ⊎ (total unhedged s.hedged ≡ 0)
      → Step s (record s { monitor = draining })
  monitor_done :
      s.monitor ≡ draining → total load s.hedges ≡ 0 → Step s (record s { monitor = done })
  closer_cancels :
      s.closer ≡ waiting → total load s.primaries ≡ 0 → Step s (record s { closer = cancelling })
  closer_closes : s.closer ≡ cancelling → s.monitor ≡ done → Step s (record s { closer = closed })
  -- The loop over the channel in `fanOut`.
  receives :
      (r : QuoteResult) (rs : List QuoteResult)
      → s.channel ≡ r ∷ rs
      → Step s (record s { channel = rs; received = s.received ++ (r ∷ []) })
  loop_ends :
      s.channel ≡ []
      → s.closer ≡ closed
      → s.returned ≡ false
      → Step s (record s { returned = true })

-- After the goroutines have been started for `n` eligible carriers, of which `m` have an entry in
-- `pending`: carriers with the same identifier share one.
abbrev pub start : ℕ → ℕ → FanOut
start n m = record {
  primaries = replicate n calling;
  hedges = [];
  hedged = replicate m false;
  monitor = polling;
  closer = waiting;
  capacity = n * 2;
  channel = [];
  sent = [];
  received = [];
  expired = false;
  returned = false;
}

-- `Steps s k t`: `k` steps lead from `s` to `t`.
pub data Steps (s : FanOut) : ℕ → FanOut → Type 0 where
  none_yet : Steps s zero s
  step : {k : ℕ} {t u : FanOut} → Steps s k t → Step t u → Steps s (suc k) u
