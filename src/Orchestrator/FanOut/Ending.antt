-- ===== src/Orchestrator/FanOut/Ending.antt =====
-- The steps of one `fanOut` of internal/orchestrator/orchestrator.go: how many, and what can come next.
use mathlib.Core.List.{append-nil}
use riskforge.Prelude.{
  Turn, this, later, total, replicate, Turn-total, ℕ, zero, suc, ◌+◌, ◌*◌, ◌<◌, ◌≤◌, ◌≡◌, refl, ◌⊎◌,
  inl, inr, Bool, true, false, List, [], ◌∷◌, length, length-append, arith, ◌∙◌,
}
use riskforge.Domain.{QuoteResult}
use riskforge.Orchestrator.FanOut.{
  Sender, calling, sending, ended, Monitor, polling, draining, done, Closer, waiting, cancelling,
  closed, FanOut, load, Step, deadline, primary_answers, primary_fails, primary_sends,
  primary_drops, hedge_fires, hedge_answers, hedge_fails, hedge_sends, hedge_drops, monitor_returns,
  monitor_done, closer_cancels, closer_closes, receives, loop_ends, start, Steps, none_yet, step,
}
use riskforge.Orchestrator.FanOut.Room.{IsOrderly, start-IsOrderly, Steps-IsOrderly}

-- How many steps each part can still make, with what it brings about.
abbrev effort : Sender → ℕ
effort calling = 3
effort (sending r) = 2
effort ended = 0

abbrev chance : Bool → ℕ
chance false = 4
chance true = 0

abbrev monitor_left : Monitor → ℕ
monitor_left polling = 2
monitor_left draining = 1
monitor_left done = 0

abbrev closer_left : Closer → ℕ
closer_left waiting = 2
closer_left cancelling = 1
closer_left closed = 0

abbrev flag_left : Bool → ℕ
flag_left false = 1
flag_left true = 0

abbrev pub steps_left : FanOut → ℕ
steps_left s =
    total effort s.primaries
    + total effort s.hedges
    + total chance s.hedged
    + monitor_left s.monitor
    + closer_left s.closer
    + length s.channel
    + flag_left s.expired
    + flag_left s.returned

Step-steps_left : {s t : FanOut} → Step s t → steps_left t < steps_left s
Step-steps_left (deadline e) = ground arith
Step-steps_left (primary_answers r t) = ground (arith, Turn-total effort t)
Step-steps_left (primary_fails t) = ground (arith, Turn-total effort t)
Step-steps_left {s} (primary_sends r t l) =
    ground (arith, Turn-total effort t, length-append s.channel (r ∷ []))
Step-steps_left (primary_drops r t e) = ground (arith, Turn-total effort t)
Step-steps_left (hedge_fires p t) = ground (arith, Turn-total chance t)
Step-steps_left (hedge_answers r t) = ground (arith, Turn-total effort t)
Step-steps_left (hedge_fails t) = ground (arith, Turn-total effort t)
Step-steps_left {s} (hedge_sends r t l) =
    ground (arith, Turn-total effort t, length-append s.channel (r ∷ []))
Step-steps_left (hedge_drops r t e) = ground (arith, Turn-total effort t)
Step-steps_left (monitor_returns p e) = ground arith
Step-steps_left (monitor_done p e) = ground arith
Step-steps_left (closer_cancels p e) = ground arith
Step-steps_left (closer_closes p e) = ground arith
Step-steps_left (receives r rs e) = ground arith
Step-steps_left (loop_ends e c n) = ground arith

Steps-steps_left : {s t : FanOut} {k : ℕ} → Steps s k t → k + steps_left t ≤ steps_left s
Steps-steps_left none_yet = omega arith
Steps-steps_left (step r st) = omega (arith, Steps-steps_left r, Step-steps_left st)

-- A list of goroutines: all have ended, or one is in its call, or one has a result to send.
data Activity (ps : List Sender) : Type 0 where
  idle : total load ps ≡ 0 → Activity ps
  in_call : (qs : List Sender) → Turn ps calling ended qs → Activity ps
  at_send : (r : QuoteResult) (qs : List Sender) → Turn ps (sending r) ended qs → Activity ps

cons-Activity :
    (p : Sender) {ps : List Sender} → total load (p ∷ []) ≡ 0 → Activity ps → Activity (p ∷ ps)
cons-Activity p h (idle z) = idle (omega (arith, h))
cons-Activity p h (in_call qs t) = in_call (p ∷ qs) (later t)
cons-Activity p h (at_send r qs t) = at_send r (p ∷ qs) (later t)

activity : (ps : List Sender) → Activity ps
activity [] = idle refl
activity (calling ∷ ps) = in_call (ended ∷ ps) this
activity (sending r ∷ ps) = at_send r (ended ∷ ps) this
activity (ended ∷ ps) = cons-Activity ended (omega arith) (activity ps)

-- A step that finishes work: neither the clock passes the deadline nor the monitor starts another hedge.
abbrev pub IsProgress : {s t : FanOut} → Step s t → Type 0
IsProgress (deadline e) = ⊥
IsProgress (primary_answers r t) = Unit
IsProgress (primary_fails t) = Unit
IsProgress (primary_sends r t l) = Unit
IsProgress (primary_drops r t e) = Unit
IsProgress (hedge_fires p t) = ⊥
IsProgress (hedge_answers r t) = Unit
IsProgress (hedge_fails t) = Unit
IsProgress (hedge_sends r t l) = Unit
IsProgress (hedge_drops r t e) = Unit
IsProgress (monitor_returns p e) = Unit
IsProgress (monitor_done p e) = Unit
IsProgress (closer_cancels p e) = Unit
IsProgress (closer_closes p e) = Unit
IsProgress (receives r rs e) = Unit
IsProgress (loop_ends e c n) = Unit

-- Some goroutine can go on, with neither the deadline nor another hedge.
abbrev pub CanMove : FanOut → Type 0
CanMove s = (t : FanOut) × (m : Step s t) × IsProgress m

module _ (s : FanOut) (empty : s.channel ≡ []) (roomy : 0 < s.capacity) where
  primaries_move : Activity s.primaries → s.closer ≡ waiting → CanMove s
  primaries_move (idle z) w = (_, closer_cancels w z, tt)
  primaries_move (in_call qs t) w = (_, primary_fails t, tt)
  primaries_move (at_send r qs t) w = (_, primary_sends r t (rw empty roomy), tt)

  hedges_move : Activity s.hedges → s.monitor ≡ draining → CanMove s
  hedges_move (idle z) d = (_, monitor_done d z, tt)
  hedges_move (in_call qs t) d = (_, hedge_fails t, tt)
  hedges_move (at_send r qs t) d = (_, hedge_sends r t (rw empty roomy), tt)

  monitor_moves : (m : Monitor) → s.monitor ≡ m → s.closer ≡ cancelling → CanMove s
  monitor_moves polling e c = (_, monitor_returns e (inr (inl c)), tt)
  monitor_moves draining e c = hedges_move (activity s.hedges) e
  monitor_moves done e c = (_, closer_closes c e, tt)

  closer_moves : (c : Closer) → s.closer ≡ c → s.returned ≡ false → CanMove s
  closer_moves waiting e n = primaries_move (activity s.primaries) e
  closer_moves cancelling e n = monitor_moves s.monitor refl e
  closer_moves closed e n = (_, loop_ends empty e n, tt)

channel_moves :
    (s : FanOut) (q : List QuoteResult)
    → s.channel ≡ q
    → 0 < s.capacity
    → s.returned ≡ false
    → CanMove s
channel_moves s [] e c n = closer_moves s e c s.closer refl n
channel_moves s (r ∷ rs) e c n = (_, receives r rs e, tt)

Step-capacity : {s t : FanOut} → Step s t → t.capacity ≡ s.capacity
Step-capacity (deadline e) = refl
Step-capacity _ = refl

Steps-capacity : {s t : FanOut} {k : ℕ} → Steps s k t → t.capacity ≡ s.capacity
Steps-capacity none_yet = refl
Steps-capacity (step r st) = Step-capacity st ∙ Steps-capacity r

total-calling : (n : ℕ) → total effort (replicate n calling) ≡ 3 * n
total-calling zero = omega arith
total-calling (suc n) = omega (arith, total-calling n)

total-chance : (m : ℕ) → total chance (replicate m false) ≡ 4 * m
total-chance zero = omega arith
total-chance (suc m) = omega (arith, total-chance m)

steps_left-start : (n m : ℕ) → steps_left (start n m) ≡ 3 * n + 4 * m + 6
steps_left-start n m = omega (arith, total-calling n, total-chance m)

moves_or_returned :
    (t : FanOut) (b : Bool)
    → t.returned ≡ b
    → IsOrderly t
    → 0 < t.capacity
    → ((t.returned ≡ true) × (t.received ≡ t.sent)) ⊎ CanMove t
moves_or_returned t false e v c = inr (channel_moves t t.channel refl c e)
moves_or_returned t true e v c =
    inl (e, ground (arith, v.loop_last, v.lossless, append-nil t.received))

-- A fan-out over `n` carriers, `m` of them with an entry in `pending`, makes at most 3 n + 4 m + 6
-- steps, in whatever order its goroutines run; and in every state that it reaches, either the
-- collecting loop has ended and has received all that was sent, or some goroutine can go on, without waiting for
-- the deadline of the request and without another hedge.
pub fan_out_ends :
    (n m k : ℕ) (t : FanOut)
    → 0 < n
    → m ≤ n
    → Steps (start n m) k t
    → (k ≤ 3 * n + 4 * m + 6) × (((t.returned ≡ true) × (t.received ≡ t.sent)) ⊎ CanMove t)
fan_out_ends n m k t pos_n h run = (
  omega (arith, Steps-steps_left run, steps_left-start n m),
  moves_or_returned t t.returned refl (Steps-IsOrderly run (start-IsOrderly n m h))
      (omega (arith, Steps-capacity run)),
)
