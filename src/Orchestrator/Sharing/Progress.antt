-- ===== src/Orchestrator/Sharing/Progress.antt =====
-- Overlapping calls of `GetQuotes` in internal/orchestrator/orchestrator.go wait for one another, and a call
-- that has missed the cache fans out again when it comes to `Do` after the fan-out of another has ended.
use text.Mathlib.Text.{◌==◌ as same_text}
use text.Mathlib.TextEquality.{eq_iff}
use text.Mathlib.TextPositions.{eq_refl}
use riskforge.Prelude.{
  ℕ, suc, ◌≤◌, ◌≡◌, ◌≢◌, refl, String, false, List, ◌∷◌, Option, none, some, ◌⊎◌, inl, inr, Dict,
  update, arith, Bool-cases, Option-cases,
}
use riskforge.Domain.{QuoteRequest, QuoteResult, Carrier}
use riskforge.Domain.Errors.{Error}
use riskforge.Breaker.{Breaker}
use riskforge.Orchestrator.Quotes.{QuoteRepository, Gather, look_up}
use riskforge.Orchestrator.Sharing.{
  FlightGroup, Pc, arrived, missed, leading, alone, following, answered, Sharing, key, flight,
  at_first, looked_up, SharingStep, looks_up, flies_alone, lands_alone, takes_off, joins, lands,
  shares, SharingSteps, none_yet, step,
}
use riskforge.Orchestrator.Sharing.Flights.{
  IsShared, SharingStep-IsShared, SharingSteps-IsShared, HasFlown, at_first-IsShared,
}

module _ {F W : Type 0} (repo : Option (QuoteRepository W)) (gather : Gather F W)
    (carriers : List (Carrier F)) (breakers : W → Dict Breaker) (request : ℕ → QuoteRequest F)
    (group : FlightGroup) where
  open group use {Flights, no_flights, runner, enter, leave, runner-enter, runner-leave}

  abbrev key_of_call : ℕ → String
  key_of_call i = key repo gather carriers breakers request group i

  abbrev fly : ℕ → W → W × (Error ⊎ List QuoteResult)
  fly i w = flight repo gather carriers breakers request group i w

  abbrev State : Type 0
  State = Sharing Flights W

  abbrev OneStep : State → State → Type 0
  OneStep s t = SharingStep repo gather carriers breakers request group s t

  abbrev pub Steps : State → ℕ → State → Type 0
  Steps s k t = SharingSteps repo gather carriers breakers request group s k t

  -- The call can have its answer after at most `n` steps.
  pub record CanReturn (i n : ℕ) (s : State) : Type 0 where
    pub taken : ℕ
    pub few : taken ≤ n
    pub last : State
    pub path : Steps s taken last
    pub answer : Error ⊎ List QuoteResult
    pub returned : last.pc i ≡ answered answer

  first_step : {s t u : State} {k : ℕ} → OneStep s t → Steps t k u → Steps s (suc k) u
  first_step m none_yet = step none_yet m
  first_step m (step r m') = step (first_step m r) m'

  step-CanReturn : {s t : State} (i n : ℕ) → OneStep s t → CanReturn i n t → CanReturn i (suc n) s
  step-CanReturn i n m c = record {
    taken = suc c.taken;
    few = omega (arith, c.few);
    last = c.last;
    path = first_step m c.path;
    answer = c.answer;
    returned = c.returned;
  }

  done-CanReturn :
      (s : State) (i n : ℕ) (a : Error ⊎ List QuoteResult) → s.pc i ≡ answered a → CanReturn i n s
  done-CanReturn s i n a e = record {
    taken = 0;
    few = omega arith;
    last = s;
    path = none_yet;
    answer = a;
    returned = e;
  }

  widen : {s : State} {i m : ℕ} (n : ℕ) → CanReturn i n s → n ≤ m → CanReturn i m s
  widen n c h = record {
    taken = c.taken;
    few = omega (arith, c.few, h);
    last = c.last;
    path = c.path;
    answer = c.answer;
    returned = c.returned;
  }

  update_self : (pc : ℕ → Pc) (i : ℕ) (p : Pc) → update pc i p i ≡ p
  update_self pc i p = ground arith

  leading-CanReturn : (s : State) (i : ℕ) → s.pc i ≡ leading → CanReturn i 1 s
  leading-CanReturn s i e =
      step-CanReturn i 0 (lands i e) (done-CanReturn _ i 0 (fly i s.world).1 (update_self s.pc i _))

  alone-CanReturn : (s : State) (i : ℕ) → s.pc i ≡ alone → CanReturn i 1 s
  alone-CanReturn s i e =
      step-CanReturn i 0 (lands_alone i e)
        (done-CanReturn _ i 0 (fly i s.world).1 (update_self s.pc i _))

  shares-CanReturn :
      (s : State) (i j n : ℕ) (a : Error ⊎ List QuoteResult)
      → s.pc i ≡ following j
      → s.pc j ≡ answered a
      → CanReturn i (suc n) s
  shares-CanReturn s i j n a e done =
      step-CanReturn i n (shares i j a e done) (done-CanReturn _ i n a (update_self s.pc i _))

  following-CanReturn :
      (s : State) (i j : ℕ) (p : Pc)
      → s.pc i ≡ following j
      → s.pc j ≡ p
      → HasFlown repo gather carriers breakers request group p
      → CanReturn i 2 s
  following-CanReturn s i j leading e k h =
      let a = (fly j s.world).1 in
      step-CanReturn i 1 (lands j k)
        (shares-CanReturn _ i j 0 a (ground arith) (update_self s.pc j (answered a)))
  following-CanReturn s i j (answered a) e k h = shares-CanReturn s i j 1 a e k
  following-CanReturn s i j arrived e k h = absurd h
  following-CanReturn s i j missed e k h = absurd h
  following-CanReturn s i j alone e k h = absurd h
  following-CanReturn s i j (following l) e k h = absurd h

  missed-CanReturn :
      (s : State) (i : ℕ)
      → IsShared repo gather carriers breakers request group s
      → s.pc i ≡ missed
      → CanReturn i 3 s
  missed-CanReturn s i v e = elim (Bool-cases (same_text (request i).request_id "")) [
    | inl unnamed ↦
        step-CanReturn i 2 (flies_alone i e unnamed)
          (widen 1 (alone-CanReturn _ i (update_self s.pc i alone)) (omega arith))
    | inr named ↦ elim (Option-cases (runner s.flights (key_of_call i))) [
      | inl free ↦ step-CanReturn i 2 (takes_off i e named free) (
          step-CanReturn i 1 (lands i (update_self s.pc i leading))
            (done-CanReturn _ i 1 _ (update_self (update s.pc i leading) i _)))
      | inr (j, busy) ↦
          let m = joins i j e named busy in
          let v' = SharingStep-IsShared repo gather carriers breakers request group m v in
          let k = update_self s.pc i (following j) in
          step-CanReturn i 2 m (following-CanReturn _ i j _ k refl (v'.followed i j k).1)
    ]
  ]

  looked_up-CanReturn :
      (s : State) (i : ℕ) (found : W × Option (List QuoteResult))
      → IsShared repo gather carriers breakers request group
          (looked_up repo gather carriers breakers request group i s found)
      → CanReturn i 3 (looked_up repo gather carriers breakers request group i s found)
  looked_up-CanReturn s i (w, none) v = missed-CanReturn _ i v (update_self s.pc i missed)
  looked_up-CanReturn s i (w, some quotes) v =
      done-CanReturn _ i 3 (inr quotes) (update_self s.pc i _)

  at-CanReturn :
      (s : State) (i : ℕ) (p : Pc)
      → IsShared repo gather carriers breakers request group s
      → s.pc i ≡ p
      → CanReturn i 4 s
  at-CanReturn s i arrived v e =
      let m = looks_up i e in
      step-CanReturn i 3 m (
        looked_up-CanReturn s i (look_up repo (request i) s.world)
          (SharingStep-IsShared repo gather carriers breakers request group m v))
  at-CanReturn s i missed v e = widen 3 (missed-CanReturn s i v e) (omega arith)
  at-CanReturn s i leading v e = widen 1 (leading-CanReturn s i e) (omega arith)
  at-CanReturn s i alone v e = widen 1 (alone-CanReturn s i e) (omega arith)
  at-CanReturn s i (following j) v e =
      widen 2 (following-CanReturn s i j (s.pc j) e refl (v.followed i j e).1) (omega arith)
  at-CanReturn s i (answered a) v e = done-CanReturn s i 4 a e

  -- No call is stuck: in every state that is reached, each call can have its answer within four steps.
  pub calls-CanReturn :
      (w : W) (n : ℕ) (s : State) (i : ℕ)
      → Steps (at_first repo gather carriers breakers request group w) n s
      → CanReturn i 4 s
  calls-CanReturn w n s i r =
      at-CanReturn s i (s.pc i)
        (SharingSteps-IsShared repo gather carriers breakers request group r
          (at_first-IsShared repo gather carriers breakers request group w))
        refl

  -- Two calls with one key, which has an identifier, that have both missed the cache while no fan-out runs for
  -- the key can go on so that both run a fan-out, the second one after the first has returned and stored its
  -- quotes.
  pub fans_out_twice :
      (s : State) (i j : ℕ)
      → i ≢ j
      → s.pc i ≡ missed
      → s.pc j ≡ missed
      → same_text (request i).request_id "" ≡ false
      → same_text (request j).request_id "" ≡ false
      → key_of_call i ≡ key_of_call j
      → runner s.flights (key_of_call i) ≡ none
      → (t : State) × Steps s 4 t
        × (t.pc i ≡ answered (fly i s.world).1)
        × (t.runs
            ≡ record { caller = j; before = (fly i s.world).0 }
              ∷ record { caller = i; before = s.world }
              ∷ s.runs)
  fans_out_twice s i j differ e h named named' same free =
      let fs = enter i (key_of_call i) s.flights in
      let landed = leave (key_of_call i) fs in
      let clear : runner landed (key_of_call j) ≡ none = ground (
        arith,
        runner-leave (key_of_call i) (key_of_call j) fs,
        eq_refl (key_of_call i),
        eq_iff (key_of_call i) (key_of_call j),
      ) in
      let here : update (update s.pc i leading) i (answered (fly i s.world).1) j ≡ missed =
        ground arith in
      (
        _,
        step
            (step
              (step (step none_yet (takes_off i e named free))
                (lands i (update_self s.pc i leading)))
              (takes_off j here named' clear))
            (lands j (
              update_self (update (update s.pc i leading) i (answered (fly i s.world).1)) j
                leading)),
        ground arith,
        refl,
      )
