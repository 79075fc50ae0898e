-- ===== src/Hedging/Quiet.antt =====
-- The loop of `hedgeMonitor` over pending carriers whose thresholds hold every hedge back.
use riskforge.Prelude.{ℕ, ◌≡◌, refl, ◌∙◌, Bool, true, List, [], ◌∷◌, arith, OneOf, All, inl, inr}
use riskforge.Prelude.Float.{Float, FloatOrder}
use riskforge.Hedging.Candidate.{HedgeCarrier}
use riskforge.Hedging.Monitor.{
  PendingCarrier, MonitorState, elapsed_ms, hedge_slow, visit, visit_all, tick, hedge_monitor,
}

module _ (float : Float) (order : FloatOrder float.F) {W : Type 0}
    (hedgeable : W → List (HedgeCarrier float.F))
    (try_acquire : HedgeCarrier float.F → W → W × Bool) (others : ℕ → W → W) where
  open float use {F}

  -- At this moment the carrier is below its threshold.
  abbrev pub IsEarly : ℕ → PendingCarrier F → Type 0
  IsEarly now p =
      order.lt (elapsed_ms float order hedgeable try_acquire others now p) p.hedge_threshold ≡ true

  visit_early :
      (now : ℕ) (p : PendingCarrier F) (s : MonitorState F W)
      → IsEarly now p
      → (visit float order hedgeable try_acquire others now p s).fired ≡ s.fired
  unfolding visit hedge_slow
  visit_early now p s h = ground arith

  visit_all_early :
      (now : ℕ) (ps : List (PendingCarrier F)) (s : MonitorState F W)
      → ((p : PendingCarrier F) → OneOf p ps → IsEarly now p)
      → (visit_all float order hedgeable try_acquire others now ps s).fired ≡ s.fired
  unfolding visit_all
  visit_all_early now [] s h = refl
  visit_all_early now (p ∷ ps) s h =
      visit_all_early now ps (visit float order hedgeable try_acquire others now p s)
        (λ q m. h q (inr m))
      ∙ visit_early now p s (h p (inl refl))

  pub hedge_monitor_early :
      (moments : List ℕ) (range : ℕ → List (PendingCarrier F)) (s : MonitorState F W)
      → All (λ now. (p : PendingCarrier F) → OneOf p (range now) → IsEarly now p) moments
      → (hedge_monitor float order hedgeable try_acquire others moments range s).fired ≡ s.fired
  unfolding hedge_monitor tick
  hedge_monitor_early [] range s h = refl
  hedge_monitor_early (now ∷ moments) range s (h, hs) =
      let s' = tick float order hedgeable try_acquire others now (range now) s in
      ground (
        arith,
        hedge_monitor_early moments range s' hs,
        visit_all_early now (range now)
            (record s { all_resolved = true; world = others now s.world }) h,
      )
