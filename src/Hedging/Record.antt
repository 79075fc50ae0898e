-- ===== src/Hedging/Record.antt =====
-- `Record` of internal/orchestrator/hedging.go under concurrent calls: goroutine `i` records the
-- latency `latency i` once, one atomic operation at a time. The states lie in a heap, since
-- CompareAndSwap compares pointers; `fresh` is the next address. `order` lists the goroutines whose swap
-- was won, the first one first.
use riskforge.Prelude.{
  update, ℕ, ◌+◌, ◌<◌, ◌≡◌, refl, sym, ap, ap₂, ◌∙◌, List, [], ◌∷◌, ◌++◌, map, arith, ◌==◌,
  if◌then◌else◌, Bool-cases, inl, inr,
}
use riskforge.Prelude.Int.{ℤ}
use riskforge.Prelude.Float.{Float}
use riskforge.Hedging.Tracker.{EmaState, EmaTracker, blend, record_latency, record_all}

abbrev pub count : ℕ → List ℕ → ℕ
count i [] = 0
count i (j ∷ js) = (if j == i then 1 else 0) + count i js

count-append : (i : ℕ) (xs ys : List ℕ) → count i (xs ++ ys) ≡ count i xs + count i ys
count-append i [] ys = omega arith
count-append i (x ∷ xs) ys = omega (arith, count-append i xs ys)

update_here {ℓ} : {P : Type ℓ} (f : ℕ → P) (k : ℕ) (x : P) → update f k x k ≡ x
update_here f k x = ground arith

module _ (float : Float) where
  open float use {F}

  -- Before the load; with the pointer and the state that was loaded, before the swap; after a won
  -- swap, before the gauge; after that.
  pub data RecordPc : Type 0 where
    starting : RecordPc
    loaded : ℕ → EmaState float → RecordPc
    publishing : F → RecordPc
    returned : RecordPc

  pub record Memory : Type 0 where
    pub current : ℕ
    pub fresh : ℕ
    pub cell : ℕ → EmaState float
    pub gauge : List F
    pub order : List ℕ

  pub record Recorders : Type 0 where
    pub memory : Memory
    pub pc : ℕ → RecordPc

  abbrev pub won : RecordPc → ℕ
  won starting = 0
  won (loaded p old) = 0
  won (publishing p95) = 1
  won returned = 1

  abbrev pub idle_recorders : EmaTracker float → Recorders
  idle_recorders t = record {
    memory = record { current = 0; fresh = 1; cell = λ p. t.state; gauge = []; order = [] };
    pc = λ i. starting;
  }

  module _ (alpha : F) (latency : ℕ → ℤ) where
    abbrev pub next_state : ℕ → EmaState float → EmaState float
    next_state i old = record {
      p95 = blend float alpha (latency i) old.p95;
      observations = old.observations + 1;
    }

    unfoldable pub advance_record : ℕ → RecordPc → Memory → Memory × RecordPc
    advance_record i starting m = (m, loaded m.current (m.cell m.current))
    advance_record i (loaded p old) m =
        if m.current == p
        then (
          record m {
            current = m.fresh;
            fresh = m.fresh + 1;
            cell = update m.cell m.fresh (next_state i old);
            order = m.order ++ (i ∷ []);
          },
          publishing (next_state i old).p95,
        )
        else (m, starting)
    advance_record i (publishing p95) m = (record m { gauge = p95 ∷ m.gauge }, returned)
    advance_record i returned m = (m, returned)

    abbrev pub record_turn : ℕ → Recorders → Recorders
    record_turn i s = record {
      memory = (advance_record i (s.pc i) s.memory).0;
      pc = update s.pc i (advance_record i (s.pc i) s.memory).1;
    }

    -- The operations of the goroutines in a given order.
    abbrev pub record_turns : List ℕ → Recorders → Recorders
    record_turns [] s = s
    record_turns (i ∷ is) s = record_turns is (record_turn i s)

  record_all-append :
      (ls : List ℤ) (l : ℤ) (t : EmaTracker float)
      → record_all float (ls ++ (l ∷ [])) t ≡ record_latency float l (record_all float ls t)
  record_all-append [] l t = refl
  record_all-append (k ∷ ls) l t = record_all-append ls l (record_latency float k t)

  map-append_last :
      (latency : ℕ → ℤ) (is : List ℕ) (i : ℕ)
      → map latency (is ++ (i ∷ [])) ≡ map latency is ++ (latency i ∷ [])
  map-append_last latency [] i = refl
  map-append_last latency (j ∷ is) i = ap (λ ls. latency j ∷ ls) (map-append_last latency is i)

  record_all-alpha : (ls : List ℤ) (t : EmaTracker float) → (record_all float ls t).alpha ≡ t.alpha
  unfolding record_latency
  record_all-alpha [] t = refl
  record_all-alpha (l ∷ ls) t = record_all-alpha ls (record_latency float l t)

  next_state-record_latency :
      (alpha : F) (latency : ℕ → ℤ) (i : ℕ) (old : EmaState float) (u : EmaTracker float)
      → u.alpha ≡ alpha
      → old ≡ u.state
      → next_state alpha latency i old ≡ (record_latency float (latency i) u).state
  unfolding record_latency
  next_state-record_latency alpha latency i old u e h =
      ap₂ (λ a o. next_state a latency i o) (sym e) h

  module _ (t : EmaTracker float) (latency : ℕ → ℤ) where
    -- The state of the tracker is that of the recordings in the order of their swaps; what a goroutine
    -- has loaded is still what its pointer leads to; each goroutine has one swap when it is past it.
    record IsLinear (m : Memory) (pc : ℕ → RecordPc) : Type 0 where
      now : m.cell m.current ≡ (record_all float (map latency m.order) t).state
      alive : m.current < m.fresh
      held :
          (i p : ℕ) (old : EmaState float) → pc i ≡ loaded p old → (p < m.fresh) × (m.cell p ≡ old)
      once : (i : ℕ) → count i m.order ≡ won (pc i)

    module _ (m : Memory) (pc : ℕ → RecordPc) (v : IsLinear m pc) (i : ℕ) where
      open v use {now, alive, held, once}

      load-IsLinear :
          pc i ≡ starting → IsLinear m (update pc i (loaded m.current (m.cell m.current)))
      load-IsLinear e = record {
        now = now;
        alive = alive;
        held = λ j p old h. ground (arith, held j p old);
        once = λ j. ground (arith, once j, once i);
      }

      lose-IsLinear :
          (p : ℕ) (old : EmaState float) → pc i ≡ loaded p old → IsLinear m (update pc i starting)
      lose-IsLinear p old e = record {
        now = now;
        alive = alive;
        held = λ j q o h. ground (arith, held j q o);
        once = λ j. ground (arith, once j, once i);
      }

      publish-IsLinear :
          (p95 : F)
          → pc i ≡ publishing p95
          → IsLinear (record m { gauge = p95 ∷ m.gauge }) (update pc i returned)
      publish-IsLinear p95 e = record {
        now = now;
        alive = alive;
        held = λ j q o h. ground (arith, held j q o);
        once = λ j. ground (arith, once j, once i);
      }

      stay-IsLinear : pc i ≡ returned → IsLinear m (update pc i returned)
      stay-IsLinear e = record {
        now = now;
        alive = alive;
        held = λ j q o h. ground (arith, held j q o);
        once = λ j. ground (arith, once j, once i);
      }

      abbrev swapped : EmaState float → Memory
      swapped old = record m {
        current = m.fresh;
        fresh = m.fresh + 1;
        cell = update m.cell m.fresh (next_state t.alpha latency i old);
        order = m.order ++ (i ∷ []);
      }

      swapped_now :
          (p : ℕ) (old : EmaState float)
          → pc i ≡ loaded p old
          → m.current ≡ p
          → update m.cell m.fresh (next_state t.alpha latency i old) m.fresh
            ≡ (record_all float (map latency (m.order ++ (i ∷ []))) t).state
      swapped_now p old e c =
          update_here m.cell m.fresh (next_state t.alpha latency i old)
          ∙ next_state-record_latency t.alpha latency i old
              (record_all float (map latency m.order) t) (record_all-alpha (map latency m.order) t)
              (ground (arith, held i p old, now))
          ∙ ap (λ (u : EmaTracker float). u.state)
              (sym (
                ap (λ ls. record_all float ls t) (map-append_last latency m.order i)
                ∙ record_all-append (map latency m.order) (latency i) t))

      win-IsLinear :
          (p : ℕ) (old : EmaState float)
          → pc i ≡ loaded p old
          → m.current ≡ p
          → IsLinear (swapped old) (update pc i (publishing (next_state t.alpha latency i old).p95))
      win-IsLinear p old e c = record {
        now = swapped_now p old e c;
        alive = omega arith;
        held = λ j q o h. ground (arith, held j q o);
        once = λ j. ground (arith, once j, once i, count-append j m.order (i ∷ []));
      }

      turn-IsLinear :
          (q : RecordPc)
          → pc i ≡ q
          → IsLinear
              (advance_record t.alpha latency i q m).0
              (update pc i (advance_record t.alpha latency i q m).1)
      unfolding advance_record
      turn-IsLinear starting e = load-IsLinear e
      turn-IsLinear (loaded p old) e = elim (Bool-cases (m.current == p)) [
        | inl same ↦ rw same (win-IsLinear p old e (ground arith))
        | inr other ↦ rw other (lose-IsLinear p old e)
      ]
      turn-IsLinear (publishing p95) e = publish-IsLinear p95 e
      turn-IsLinear returned e = stay-IsLinear e

    record_turns-IsLinear :
        (is : List ℕ) (s : Recorders)
        → IsLinear s.memory s.pc
        → IsLinear (record_turns t.alpha latency is s).memory (record_turns t.alpha latency is s).pc
    record_turns-IsLinear [] s v = v
    record_turns-IsLinear (i ∷ is) s v =
        record_turns-IsLinear is (record_turn t.alpha latency i s)
          (turn-IsLinear s.memory s.pc v i (s.pc i) refl)

    -- Whatever the order of the operations of concurrent calls of `Record`, the state of the tracker is
    -- the one that the recordings give one after another, in the order of their won swaps; in that order
    -- every call that is past its swap stands exactly once, and no other.
    pub record_turns-record_all :
        (is : List ℕ)
        → (let s = record_turns t.alpha latency is (idle_recorders t) in
            (s.memory.cell s.memory.current
              ≡ (record_all float (map latency s.memory.order) t).state)
            × ((i : ℕ) → count i s.memory.order ≡ won (s.pc i)))
    record_turns-record_all is =
        let v =
          record_turns-IsLinear is (idle_recorders t) (record {
            now = refl;
            alive = omega arith;
            held = λ i p old h. cc;
            once = λ i. refl;
          }) in
        (v.now, v.once)
