-- ===== src/Orchestrator/FanOut/Room.antt =====
-- The channel of one `fanOut` of internal/orchestrator/orchestrator.go: its room, and its close.
use mathlib.Core.List.{append_assoc}
use riskforge.Prelude.{
  Turn, total, Turn-total, total-replicate, ℕ, ◌+◌, ◌<◌, ◌≤◌, ◌≡◌, refl, ◌⊎◌, inl, inr, true, false,
  List, [], ◌∷◌, ◌++◌, length, length-append, arith,
}
use riskforge.Domain.{QuoteResult}
use riskforge.Orchestrator.FanOut.{
  Sender, calling, sending, ended, done, waiting, closed, FanOut, load, unhedged, Step, deadline,
  primary_answers, primary_fails, primary_sends, primary_drops, hedge_fires, hedge_answers,
  hedge_fails, hedge_sends, hedge_drops, monitor_returns, monitor_done, closer_cancels,
  closer_closes, receives, loop_ends, start, Steps, none_yet, step,
}

-- The queue, the results already taken, and all that may still be sent fit into the channel; and the
-- goroutines end in order: the primaries before the cancellation, the hedges before the monitor,
-- the monitor before the close, and the collecting loop last.
pub record IsOrderly (s : FanOut) : Type 0 where
  pub room :
      length s.channel
        + length s.received
        + total load s.primaries
        + total load s.hedges
        + total unhedged s.hedged
      ≤ s.capacity
  pub primaries_first : (s.closer ≡ waiting) ⊎ (total load s.primaries ≡ 0)
  pub hedges_first : (s.monitor ≡ done → total load s.hedges ≡ 0)
  pub monitor_first : s.closer ≡ closed → s.monitor ≡ done
  pub loop_last : s.returned ≡ true → (s.closer ≡ closed) × (s.channel ≡ [])
  pub lossless : s.sent ≡ s.received ++ s.channel

pub Step-IsOrderly : {s t : FanOut} → Step s t → IsOrderly s → IsOrderly t
Step-IsOrderly (deadline e) v = ground arith
Step-IsOrderly (primary_answers r t) v = ground (arith, Turn-total load t)
Step-IsOrderly (primary_fails t) v = ground (arith, Turn-total load t)
Step-IsOrderly {s} (primary_sends r t l) v = ground (
  arith,
  Turn-total load t,
  length-append s.channel (r ∷ []),
  append_assoc s.received s.channel (r ∷ []),
)
Step-IsOrderly (primary_drops r t e) v = ground (arith, Turn-total load t)
Step-IsOrderly (hedge_fires p t) v = ground (arith, Turn-total unhedged t)
Step-IsOrderly (hedge_answers r t) v = ground (arith, Turn-total load t)
Step-IsOrderly (hedge_fails t) v = ground (arith, Turn-total load t)
Step-IsOrderly {s} (hedge_sends r t l) v = ground (
  arith,
  Turn-total load t,
  length-append s.channel (r ∷ []),
  append_assoc s.received s.channel (r ∷ []),
)
Step-IsOrderly (hedge_drops r t e) v = ground (arith, Turn-total load t)
Step-IsOrderly (monitor_returns p e) v = ground arith
Step-IsOrderly (monitor_done p e) v = ground arith
Step-IsOrderly (closer_cancels p e) v = ground arith
Step-IsOrderly (closer_closes p e) v = ground arith
Step-IsOrderly {s} (receives r rs e) v =
    ground (arith, length-append s.received (r ∷ []), append_assoc s.received (r ∷ []) rs)
Step-IsOrderly (loop_ends e c n) v = ground arith

pub start-IsOrderly : (n m : ℕ) → m ≤ n → IsOrderly (start n m)
start-IsOrderly n m h =
    ground (arith, total-replicate load n calling refl, total-replicate unhedged m false refl)

pub Steps-IsOrderly : {s t : FanOut} {k : ℕ} → Steps s k t → IsOrderly s → IsOrderly t
Steps-IsOrderly none_yet v = v
Steps-IsOrderly (step r st) v = Step-IsOrderly st (Steps-IsOrderly r v)

-- A goroutine of a fan-out that has a result to send.
abbrev pub Sends : FanOut → QuoteResult → Type 0
Sends s r =
    ((ps : List Sender) × Turn s.primaries (sending r) ended ps)
    ⊎ ((hs : List Sender) × Turn s.hedges (sending r) ended hs)

Sends-load :
    (s : FanOut) (r : QuoteResult) → Sends s r → 0 < total load s.primaries + total load s.hedges
Sends-load s r (inl (ps, t)) = omega (arith, Turn-total load t)
Sends-load s r (inr (hs, t)) = omega (arith, Turn-total load t)

-- A send never blocks: in every state that a fan-out over `n` carriers reaches, whatever the order
-- of its goroutines, a goroutine with a result to send finds room in the channel.
pub send_never_blocks :
    (n m k : ℕ) (t : FanOut) (r : QuoteResult)
    → m ≤ n
    → Steps (start n m) k t
    → Sends t r
    → length t.channel < t.capacity
send_never_blocks n m k t r h run w =
    let v = Steps-IsOrderly run (start-IsOrderly n m h) in omega (arith, v.room, Sends-load t r w)

-- When the channel is closed, the monitor is done and no goroutine, primary or hedge, has a result to
-- send or may get one; all that was sent has been received or is still in the queue.
pub close_is_last :
    (n m k : ℕ) (t : FanOut)
    → m ≤ n
    → Steps (start n m) k t
    → t.closer ≡ closed
    → (t.monitor ≡ done)
      × (total load t.primaries ≡ 0)
      × (total load t.hedges ≡ 0)
      × (t.sent ≡ t.received ++ t.channel)
close_is_last n m k t h run c =
    let v = Steps-IsOrderly run (start-IsOrderly n m h) in
    let d = v.monitor_first c in
    (d, ground (arith, v.primaries_first), v.hedges_first d, v.lossless)
