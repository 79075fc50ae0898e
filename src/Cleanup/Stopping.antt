-- ===== src/Cleanup/Stopping.antt =====
-- The calls of `Stop` in internal/cleanup/cleanup.go.
use riskforge.Prelude.{
  ℕ, ◌+◌, ◌≡◌, ◌≤◌, ◌<◌, ◌≢◌, ◌⊎◌, inl, inr, refl, true, false, List, arith, Turn, total,
  Turn-total,
}
use riskforge.Domain.Errors.{Error}
use riskforge.Cleanup.{
  Loop, not_started, selecting, sweeping, finished, Stopper, calling, waiting, stopped, Ticker, new,
  TickerStep, starts, context_ends, others, ticks, loop_stops, loop_cancelled, sweeps_once,
  stop_called, closes_stop, finds_closed, stop_returns, TickerSteps, none_yet, step,
}

-- A call of `Stop` that has returned.
abbrev pub returned : Stopper → ℕ
returned calling = 0
returned waiting = 0
returned stopped = 1

-- A call of `Stop` that waits for `done`.
abbrev pub awaiting : Stopper → ℕ
awaiting calling = 0
awaiting waiting = 1
awaiting stopped = 0

module _ {W : Type 0} (delete_expired : W → W × (Error ⊎ ℕ)) where
  -- The channel is closed once at most, and `Stop` returns only after `Start`.
  record IsOrderly (t : Ticker W) : Type 0 where
    closed_once : t.closes ≤ 1
    by_once : ((t.once ≡ false) × (t.closes ≡ 0)) ⊎ ((t.once ≡ true) × (t.closes ≡ 1))
    by_stop : (total awaiting t.stoppers ≡ 0) ⊎ (t.once ≡ true)
    after_start : (total returned t.stoppers ≡ 0) ⊎ (t.loop ≡ finished)

  TickerStep-IsOrderly :
      {t u : Ticker W} → TickerStep delete_expired t u → IsOrderly t → IsOrderly u
  TickerStep-IsOrderly (starts e) v = ground arith
  TickerStep-IsOrderly context_ends v = ground arith
  TickerStep-IsOrderly (others w) v = ground arith
  TickerStep-IsOrderly (ticks e) v = ground arith
  TickerStep-IsOrderly (loop_stops e c) v = ground arith
  TickerStep-IsOrderly (loop_cancelled e c) v = ground arith
  TickerStep-IsOrderly (sweeps_once e) v = ground arith
  TickerStep-IsOrderly stop_called v = ground arith
  TickerStep-IsOrderly (closes_stop s e) v =
      ground (arith, Turn-total returned s, Turn-total awaiting s)
  TickerStep-IsOrderly (finds_closed s e) v =
      ground (arith, Turn-total returned s, Turn-total awaiting s)
  TickerStep-IsOrderly (stop_returns s e) v =
      ground (arith, Turn-total returned s, Turn-total awaiting s)

  TickerSteps-IsOrderly :
      {t u : Ticker W} {k : ℕ} → TickerSteps delete_expired t k u → IsOrderly t → IsOrderly u
  TickerSteps-IsOrderly none_yet v = v
  TickerSteps-IsOrderly (step r s) v = TickerStep-IsOrderly s (TickerSteps-IsOrderly r v)

  -- Once `Start` has returned it sweeps no more.
  record IsOver (n : ℕ) (t : Ticker W) : Type 0 where
    over : t.loop ≡ finished
    same : t.sweeps ≡ n

  TickerStep-IsOver :
      {t u : Ticker W} (n : ℕ) → TickerStep delete_expired t u → IsOver n t → IsOver n u
  TickerStep-IsOver n (starts e) v = ground arith
  TickerStep-IsOver n context_ends v = ground arith
  TickerStep-IsOver n (others w) v = ground arith
  TickerStep-IsOver n (ticks e) v = ground arith
  TickerStep-IsOver n (loop_stops e c) v = ground arith
  TickerStep-IsOver n (loop_cancelled e c) v = ground arith
  TickerStep-IsOver n (sweeps_once e) v = ground arith
  TickerStep-IsOver n stop_called v = ground arith
  TickerStep-IsOver n (closes_stop s e) v = ground arith
  TickerStep-IsOver n (finds_closed s e) v = ground arith
  TickerStep-IsOver n (stop_returns s e) v = ground arith

  TickerSteps-IsOver :
      {t u : Ticker W} {k : ℕ} (n : ℕ) → TickerSteps delete_expired t k u → IsOver n t → IsOver n u
  TickerSteps-IsOver n none_yet v = v
  TickerSteps-IsOver n (step r s) v = TickerStep-IsOver n s (TickerSteps-IsOver n r v)

  new-IsOrderly : (w : W) → IsOrderly (new w)
  new-IsOrderly w = record {
    closed_once = omega arith;
    by_once = inl (refl, refl);
    by_stop = inl refl;
    after_start = inl refl;
  }

  -- When a call of `Stop` has returned, `Start` has returned too, and whatever happens then, DeleteExpired is not
  -- called again. However many calls of `Stop` there are, the channel is closed once at most.
  pub stop_is_final :
      (w : W) (k j : ℕ) (t u : Ticker W)
      → TickerSteps delete_expired (new w) k t
      → 0 < total returned t.stoppers
      → TickerSteps delete_expired t j u
      → (t.loop ≡ finished) × (u.sweeps ≡ t.sweeps) × (u.closes ≤ 1)
  stop_is_final w k j t u run h more =
      let v = TickerSteps-IsOrderly run (new-IsOrderly w) in
      let ended : t.loop ≡ finished = ground (arith, v.after_start) in
      let over = TickerSteps-IsOver t.sweeps more (record { over = ended; same = refl }) in
      (ended, over.same, (TickerSteps-IsOrderly more v).closed_once)

  waiting_closes :
      (t : Ticker W) (ss : List Stopper)
      → IsOrderly t
      → Turn t.stoppers waiting stopped ss
      → 0 < t.closes
  waiting_closes t ss v turn = ground (arith, Turn-total awaiting turn)

  -- In at most three steps, with `Start` returned.
  abbrev pub CanReturn : Ticker W → List Stopper → Type 0
  CanReturn t ss =
      (j : ℕ) × (u : Ticker W) × (j ≤ 3)
      × TickerSteps delete_expired t j u
      × (u.stoppers ≡ ss)
      × (u.loop ≡ finished)

  -- Whether the call can return depends on `Start` alone: before it is called, no call of `Stop` has returned.
  abbrev pub Outlook : Ticker W → List Stopper → Type 0
  Outlook t ss =
      ((t.loop ≡ not_started) × (total returned t.stoppers ≡ 0))
      ⊎ ((t.loop ≢ not_started) × CanReturn t ss)

  loop-CanReturn :
      (l : Loop) (t : Ticker W) (ss : List Stopper)
      → t.loop ≡ l
      → 0 < t.closes
      → Turn t.stoppers waiting stopped ss
      → (l ≡ not_started) ⊎ ((l ≢ not_started) × CanReturn t ss)
  loop-CanReturn not_started t ss e c turn = inl refl
  loop-CanReturn selecting t ss e c turn =
      let u : Ticker W = record t { loop = finished; stoppers = ss } in
      let run = step (step none_yet (loop_stops e c)) (stop_returns turn refl) in
      inr (λ h. cc h, (2, u, omega arith, run, refl, refl))
  loop-CanReturn sweeping t ss e c turn =
      let u : Ticker W = record t {
        loop = finished;
        stoppers = ss;
        sweeps = t.sweeps + 1;
        world = (delete_expired t.world).0;
      } in
      let run =
        step (step (step none_yet (sweeps_once e)) (loop_stops refl c)) (stop_returns turn refl) in
      inr (λ h. cc h, (3, u, omega arith, run, refl, refl))
  loop-CanReturn finished t ss e c turn = inr (
    λ h. cc h,
    (1, record t { stoppers = ss }, omega arith, step none_yet (stop_returns turn e), refl, e),
  )

  -- In every state that is reached, a call of `Stop` that waits can return within three steps, after which `Start`
  -- has returned, if `Start` was called; if it was not, no call of `Stop` has returned.
  pub stop-CanReturn :
      (w : W) (k : ℕ) (t : Ticker W) (ss : List Stopper)
      → TickerSteps delete_expired (new w) k t
      → Turn t.stoppers waiting stopped ss
      → Outlook t ss
  stop-CanReturn w k t ss run turn =
      let v = TickerSteps-IsOrderly run (new-IsOrderly w) in
      elim (loop-CanReturn t.loop t ss refl (waiting_closes t ss v turn) turn) [
        | inl e ↦ inl (e, ground (arith, v.after_start))
        | inr c ↦ inr c
      ]
