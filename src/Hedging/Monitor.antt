-- ===== src/Hedging/Monitor.antt =====
-- The loop of `hedgeMonitor` in internal/orchestrator/hedging.go. The tick of a moment visits the pending
-- carriers in the order `range` gives, since Go ranges over a map in any order. The rate limiters and the
-- breakers are part of a state `W`, from which `hedgeable` reads the carriers with their present state;
-- `others` is what other goroutines have done to it when a tick comes.
-- The goroutine that a hedge starts is a step of Orchestrator/FanOut.antt; here it is a record of what
-- was fired.
use text.Mathlib.Text.{◌==◌ as same_text}
use riskforge.Prelude.{
  ℕ, ◌≡◌, refl, sym, ap, subst, ◌∙◌, String, Bool, true, false, List, [], ◌∷◌, none, some, arith,
  any, All, OneOf, All-OneOf, Dict, read, write, read-write, if◌then◌else◌, Bool-cases,
  Option-cases, inl, inr, ◌⊎◌,
}
use riskforge.Prelude.Int.{pos, sub_ℕ}
use riskforge.Prelude.Float.{Float, FloatOrder}
use riskforge.Orchestrator.Collect.{flag}
use riskforge.Hedging.Candidate.{
  HedgeCarrier, select_hedge_candidate, IsBest, select_hedge_candidate-IsBest,
}

pub record PendingCarrier (F : Type 0) : Type 0 where
  pub carrier_id : String
  pub start_time : ℕ
  pub hedge_threshold : F

-- A hedge that was fired: for which pending carrier, to whom, and when, among the carriers as they were.
pub record Fired (F : Type 0) : Type 0 where
  pub trigger : PendingCarrier F
  pub candidate : HedgeCarrier F
  pub moment : ℕ
  pub choice : List (HedgeCarrier F)

-- `fired` has the newest first; each is one call of RecordHedge.
pub record MonitorState (F W : Type 0) : Type 0 where
  pub world : W
  pub already_hedged : Dict Bool
  pub all_resolved : Bool
  pub fired : List (Fired F)

module _ (float : Float) (order : FloatOrder float.F) {W : Type 0}
    (hedgeable : W → List (HedgeCarrier float.F))
    (try_acquire : HedgeCarrier float.F → W → W × Bool) (others : ℕ → W → W) where
  open float use {F, div, of_int}

  abbrev pub elapsed_ms : ℕ → PendingCarrier F → F
  elapsed_ms now p = div (of_int (sub_ℕ now p.start_time)) (of_int (pos 1_000_000))

  abbrev fire : ℕ → PendingCarrier F → HedgeCarrier F → W → MonitorState F W → MonitorState F W
  fire now p c w s = record {
    world = w;
    already_hedged = write s.already_hedged p.carrier_id true;
    all_resolved = s.all_resolved;
    fired =
        record { trigger = p; candidate = c; moment = now; choice = hedgeable s.world } ∷ s.fired;
  }

  -- The body of the inner loop for a carrier that has no hedge yet.
  unfoldable pub hedge_slow : ℕ → PendingCarrier F → MonitorState F W → MonitorState F W
  hedge_slow now p s =
      if order.lt (elapsed_ms now p) p.hedge_threshold
      then s
      else elim (select_hedge_candidate order p.carrier_id (hedgeable s.world)) [
        | none ↦ s
        | some c ↦
            let (w, acquired) = try_acquire c s.world in
            if acquired then fire now p c w s else record s { world = w }
      ]

  unfoldable pub visit : ℕ → PendingCarrier F → MonitorState F W → MonitorState F W
  unfolding hedge_slow
  visit now p s =
      if flag (read s.already_hedged p.carrier_id)
      then s
      else hedge_slow now p (record s { all_resolved = false })

  unfoldable pub visit_all : ℕ → List (PendingCarrier F) → MonitorState F W → MonitorState F W
  unfolding visit
  visit_all now [] s = s
  visit_all now (p ∷ ps) s = visit_all now ps (visit now p s)

  unfoldable pub tick : ℕ → List (PendingCarrier F) → MonitorState F W → MonitorState F W
  unfolding visit_all
  tick now pending s =
      visit_all now pending (record s { all_resolved = true; world = others now s.world })

  -- The ticks come at the given moments; after the last one the context is done.
  unfoldable pub hedge_monitor :
      List ℕ → (ℕ → List (PendingCarrier F)) → MonitorState F W → MonitorState F W
  unfolding tick
  hedge_monitor [] range s = s
  hedge_monitor (now ∷ moments) range s =
      let s' = tick now (range now) s in
      let rest = hedge_monitor moments range s' in if s'.all_resolved then s' else rest

  abbrev pub monitor_start : W → MonitorState F W
  monitor_start w = record { world = w; already_hedged = []; all_resolved = false; fired = [] }

  abbrev pub is_triggered : String → List (Fired F) → Bool
  is_triggered id fired = any (λ f. same_text f.trigger.carrier_id id) fired

  -- No two hedges for one carrier.
  abbrev pub OneEach : List (Fired F) → Type 0
  OneEach [] = Unit
  OneEach (f ∷ fs) = (is_triggered f.trigger.carrier_id fs ≡ false) × OneEach fs

  -- The carrier had reached its threshold, and its hedge went to the best candidate.
  abbrev pub IsJustified : Fired F → Type 0
  IsJustified f =
      (order.lt (elapsed_ms f.moment f.trigger) f.trigger.hedge_threshold ≡ false)
      × IsBest order f.trigger.carrier_id f.choice (some f.candidate)

  record IsSound (s : MonitorState F W) : Type 0 where
    agrees : (id : String) → flag (read s.already_hedged id) ≡ is_triggered id s.fired
    one_each : OneEach s.fired
    justified : All IsJustified s.fired

  chosen-IsBest :
      (id : String) (cs : List (HedgeCarrier F)) (c : HedgeCarrier F)
      → select_hedge_candidate order id cs ≡ some c
      → IsBest order id cs (some c)
  chosen-IsBest id cs c e = subst (IsBest order id cs) e (select_hedge_candidate-IsBest order id cs)

  fire-IsSound :
      (now : ℕ) (p : PendingCarrier F) (c : HedgeCarrier F) (w : W) (s : MonitorState F W)
      → IsSound s
      → flag (read s.already_hedged p.carrier_id) ≡ false
      → order.lt (elapsed_ms now p) p.hedge_threshold ≡ false
      → IsBest order p.carrier_id (hedgeable s.world) (some c)
      → IsSound (fire now p c w s)
  fire-IsSound now p c w s v h e b = record {
    agrees = λ id. ground (arith, v.agrees id, read-write s.already_hedged p.carrier_id id true);
    one_each = (sym (v.agrees p.carrier_id) ∙ h, v.one_each);
    justified = ((e, b), v.justified);
  }

  world-IsSound : (w : W) (s : MonitorState F W) → IsSound s → IsSound (record s { world = w })
  world-IsSound w s v = record { agrees = v.agrees; one_each = v.one_each; justified = v.justified }

  acquire-IsSound :
      (now : ℕ) (p : PendingCarrier F) (c : HedgeCarrier F) (s : MonitorState F W)
      → IsSound s
      → flag (read s.already_hedged p.carrier_id) ≡ false
      → order.lt (elapsed_ms now p) p.hedge_threshold ≡ false
      → select_hedge_candidate order p.carrier_id (hedgeable s.world) ≡ some c
      → IsSound (
          if (try_acquire c s.world).1
          then fire now p c (try_acquire c s.world).0 s
          else record s { world = (try_acquire c s.world).0 })
  acquire-IsSound now p c s v h e b = elim (Bool-cases (try_acquire c s.world).1) [
    | inl ok ↦ rw ok (
        fire-IsSound now p c (try_acquire c s.world).0 s v h e
          (chosen-IsBest p.carrier_id (hedgeable s.world) c b))
    | inr empty ↦ rw empty (world-IsSound (try_acquire c s.world).0 s v)
  ]

  hedge_slow-IsSound :
      (now : ℕ) (p : PendingCarrier F) (s : MonitorState F W)
      → IsSound s
      → flag (read s.already_hedged p.carrier_id) ≡ false
      → IsSound (hedge_slow now p s)
  unfolding hedge_slow
  hedge_slow-IsSound now p s v h =
      elim (Bool-cases (order.lt (elapsed_ms now p) p.hedge_threshold)) [
        | inl early ↦ rw early v
        | inr late ↦
            elim (Option-cases (select_hedge_candidate order p.carrier_id (hedgeable s.world))) [
              | inl e ↦ rw (late, e) v
              | inr (c, e) ↦ rw (late, e) (acquire-IsSound now p c s v h late e)
            ]
      ]

  start-IsSound : (w : W) → IsSound (monitor_start w)
  unfolding read
  start-IsSound w = record { agrees = λ id. refl; one_each = tt; justified = tt }

  fresh-IsSound :
      (b : Bool) (w : W) (s : MonitorState F W)
      → IsSound s
      → IsSound (record s { all_resolved = b; world = w })
  fresh-IsSound b w s v = record {
    agrees = v.agrees;
    one_each = v.one_each;
    justified = v.justified;
  }

  visit-IsSound :
      (now : ℕ) (p : PendingCarrier F) (s : MonitorState F W) → IsSound s → IsSound (visit now p s)
  unfolding visit
  visit-IsSound now p s v = elim (Bool-cases (flag (read s.already_hedged p.carrier_id))) [
    | inl old ↦ rw old v
    | inr new ↦ rw new (
        hedge_slow-IsSound now p (record s { all_resolved = false })
          (fresh-IsSound false s.world s v) new)
  ]

  visit_all-IsSound :
      (now : ℕ) (ps : List (PendingCarrier F)) (s : MonitorState F W)
      → IsSound s
      → IsSound (visit_all now ps s)
  unfolding visit_all
  visit_all-IsSound now [] s v = v
  visit_all-IsSound now (p ∷ ps) s v =
      visit_all-IsSound now ps (visit now p s) (visit-IsSound now p s v)

  tick-IsSound :
      (now : ℕ) (ps : List (PendingCarrier F)) (s : MonitorState F W)
      → IsSound s
      → IsSound (tick now ps s)
  unfolding tick
  tick-IsSound now ps s v =
      visit_all-IsSound now ps (record s { all_resolved = true; world = others now s.world })
        (fresh-IsSound true (others now s.world) s v)

  hedge_monitor-IsSound :
      (moments : List ℕ) (range : ℕ → List (PendingCarrier F)) (s : MonitorState F W)
      → IsSound s
      → IsSound (hedge_monitor moments range s)
  unfolding hedge_monitor
  hedge_monitor-IsSound [] range s v = v
  hedge_monitor-IsSound (now ∷ moments) range s v =
      elim (Bool-cases (tick now (range now) s).all_resolved) [
        | inl over ↦ rw (over, hedge_monitor) (tick-IsSound now (range now) s v)
        | inr on ↦
            rw (on, hedge_monitor)
              (hedge_monitor-IsSound moments range (tick now (range now) s)
                (tick-IsSound now (range now) s v))
      ]

  -- Every pending carrier has its hedge.
  abbrev pub AllHedged : List (PendingCarrier F) → MonitorState F W → Type 0
  AllHedged ps s = All (λ p. is_triggered p.carrier_id s.fired ≡ true) ps

  hedge_slow-unresolved :
      (now : ℕ) (p : PendingCarrier F) (s : MonitorState F W)
      → (hedge_slow now p s).all_resolved ≡ s.all_resolved
  unfolding hedge_slow
  hedge_slow-unresolved now p s = ground arith

  visit_resolved :
      (now : ℕ) (p : PendingCarrier F) (s : MonitorState F W)
      → (visit now p s).all_resolved ≡ true
      → (flag (read s.already_hedged p.carrier_id) ≡ true) × (visit now p s ≡ s)
  unfolding visit
  visit_resolved now p s h =
      ground (arith, hedge_slow-unresolved now p (record s { all_resolved = false }))

  visit_all_resolved :
      (now : ℕ) (ps : List (PendingCarrier F)) (s : MonitorState F W)
      → (visit_all now ps s).all_resolved ≡ true
      → (s.all_resolved ≡ true)
        × (visit_all now ps s ≡ s)
        × All (λ p. flag (read s.already_hedged p.carrier_id) ≡ true) ps
  unfolding visit_all
  visit_all_resolved now [] s h = (h, refl, tt)
  visit_all_resolved now (p ∷ ps) s h =
      let (r, e, a) = visit_all_resolved now ps (visit now p s) h in
      let (old, same) = visit_resolved now p s r in
      (
        ap (λ (q : MonitorState F W). q.all_resolved) (sym same) ∙ r,
        e ∙ same,
        (
          old,
          subst
              (λ (q : MonitorState F W).
                All (λ p'. flag (read q.already_hedged p'.carrier_id) ≡ true) ps)
              same a,
        ),
      )

  All-is_triggered :
      (ps : List (PendingCarrier F)) (s : MonitorState F W)
      → IsSound s
      → All (λ p. flag (read s.already_hedged p.carrier_id) ≡ true) ps
      → AllHedged ps s
  All-is_triggered [] s v a = tt
  All-is_triggered (p ∷ ps) s v (h, a) =
      (sym (v.agrees p.carrier_id) ∙ h, All-is_triggered ps s v a)

  All-covered :
      (P : PendingCarrier F → Type 0) (ps qs : List (PendingCarrier F))
      → ((p : PendingCarrier F) → OneOf p ps → OneOf p qs)
      → All P qs
      → All P ps
  All-covered P [] qs covers a = tt
  All-covered P (p ∷ ps) qs covers a =
      (All-OneOf P p qs a (covers p (inl refl)), All-covered P ps qs (λ q m. covers q (inr m)) a)

  tick_resolved :
      (now : ℕ) (ps : List (PendingCarrier F)) (s : MonitorState F W)
      → IsSound s
      → (tick now ps s).all_resolved ≡ true
      → AllHedged ps (tick now ps s)
  unfolding tick
  tick_resolved now ps s v h =
      let s' : MonitorState F W = record s { all_resolved = true; world = others now s.world } in
      let (_, e, a) = visit_all_resolved now ps s' h in
      subst (AllHedged ps) (sym e)
        (All-is_triggered ps s' (fresh-IsSound true (others now s.world) s v) a)

  module _ (pending : List (PendingCarrier F)) (range : ℕ → List (PendingCarrier F))
      (covers : (now : ℕ) (p : PendingCarrier F) → OneOf p pending → OneOf p (range now)) where
    hedge_monitor_resolved :
        (moments : List ℕ) (s : MonitorState F W)
        → IsSound s
        → s.all_resolved ≡ false
        → ((hedge_monitor moments range s).all_resolved ≡ false)
          ⊎ AllHedged pending (hedge_monitor moments range s)
    unfolding hedge_monitor
    hedge_monitor_resolved [] s v h = inl h
    hedge_monitor_resolved (now ∷ moments) s v h =
        let s' = tick now (range now) s in
        elim (Bool-cases s'.all_resolved) [
          | inl over ↦
              rw (over, hedge_monitor)
                (inr (
                  All-covered (λ p. is_triggered p.carrier_id s'.fired ≡ true) pending (range now)
                    (covers now) (tick_resolved now (range now) s v over)))
          | inr on ↦
              rw (on, hedge_monitor)
                (hedge_monitor_resolved moments s' (tick-IsSound now (range now) s v) on)
        ]

    -- Whatever the ticks, the order of the pending carriers at each, the limiters, the breakers and
    -- what other goroutines do to them between ticks: the monitor fires at most one hedge for each
    -- pending carrier, each only when that carrier has reached its threshold, and to the best candidate
    -- of that moment; and it has left its loop by itself only if every pending carrier has its hedge.
    pub hedge_monitor-IsJustified :
        (moments : List ℕ) (w : W)
        → (let s = hedge_monitor moments range (monitor_start w) in
            OneEach s.fired
            × All IsJustified s.fired
            × ((s.all_resolved ≡ false) ⊎ AllHedged pending s))
    hedge_monitor-IsJustified moments w =
        let v = hedge_monitor-IsSound moments range (monitor_start w) (start-IsSound w) in
        (
          v.one_each,
          v.justified,
          hedge_monitor_resolved moments (monitor_start w) (start-IsSound w) refl,
        )
