-- ===== src/Orchestrator/Sharing/Answers.antt =====
-- What overlapping calls of `GetQuotes` in internal/orchestrator/orchestrator.go are answered with, and that
-- none of them is stuck.
use riskforge.Prelude.{
  ℕ, ◌≡◌, refl, sym, ap, ◌∙◌, subst, String, List, ◌∷◌, Option, none, some, ◌⊎◌, inl, inr, Dict,
  update, arith, ◌==◌, OneOf, Bool-cases,
}
use riskforge.Domain.{QuoteRequest, QuoteResult, Carrier}
use riskforge.Domain.Errors.{Error}
use riskforge.Breaker.{Breaker}
use riskforge.Orchestrator.Quotes.{QuoteRepository, Gather, look_up, fan_out-succeeds}
use riskforge.Orchestrator.Sharing.{
  FlightGroup, Pc, missed, leading, alone, following, answered, Access, Sharing, key, flight,
  at_first, looked_up, flown, SharingStep, looks_up, flies_alone, lands_alone, takes_off, joins,
  lands, shares, others, SharingSteps, none_yet, step,
}
use riskforge.Orchestrator.Sharing.Flights.{IsShared, SharingSteps-IsShared, at_first-IsShared}
use riskforge.Orchestrator.Sharing.Waits.{IsWaiting, SharingStep-IsWaiting}

module _ {F W : Type 0} (repo : Option (QuoteRepository W)) (gather : Gather F W)
    (carriers : List (Carrier F)) (breakers : W → Dict Breaker) (request : ℕ → QuoteRequest F)
    (group : FlightGroup) where
  open group use {Flights, no_flights, runner, enter, leave}

  abbrev key_of_call : ℕ → String
  key_of_call i = key repo gather carriers breakers request group i

  abbrev fly : ℕ → W → W × (Error ⊎ List QuoteResult)
  fly i w = flight repo gather carriers breakers request group i w

  abbrev State : Type 0
  State = Sharing Flights W

  -- A logged lookup under the key of the call found these quotes, or a logged fan-out under its key gave them; it was
  -- made by the call itself, or by the one that it has waited for.
  pub record IsAccounted (hits runs : List (Access W)) (waited : ℕ → Option ℕ) (i : ℕ)
      (a : Error ⊎ List QuoteResult) : Type 0 where
    pub access : Access W
    pub same_key : key_of_call access.caller ≡ key_of_call i
    pub own : (access.caller ≡ i) ⊎ (waited i ≡ some access.caller)
    pub quotes : List QuoteResult
    pub given : a ≡ inr quotes
    pub source :
        (OneOf access hits × ((look_up repo (request access.caller) access.before).1 ≡ some quotes))
        ⊎ (OneOf access runs × ((fly access.caller access.before).1 ≡ inr quotes))

  abbrev AllAccounted : State → Type 0
  AllAccounted s =
      (i : ℕ) (a : Error ⊎ List QuoteResult)
      → s.pc i ≡ answered a
      → IsAccounted s.hits s.runs s.waited i a

  more_hits-IsAccounted :
      (x : Access W) (hits runs : List (Access W)) (waited : ℕ → Option ℕ) (i : ℕ)
      (a : Error ⊎ List QuoteResult)
      → IsAccounted hits runs waited i a
      → IsAccounted (x ∷ hits) runs waited i a
  more_hits-IsAccounted x hits runs waited i a v = record {
    access = v.access;
    same_key = v.same_key;
    own = v.own;
    quotes = v.quotes;
    given = v.given;
    source = elim v.source [ inl (m, e) ↦ inl (inr m, e) | inr r ↦ inr r ];
  }

  more_runs-IsAccounted :
      (x : Access W) (hits runs : List (Access W)) (waited : ℕ → Option ℕ) (i : ℕ)
      (a : Error ⊎ List QuoteResult)
      → IsAccounted hits runs waited i a
      → IsAccounted hits (x ∷ runs) waited i a
  more_runs-IsAccounted x hits runs waited i a v = record {
    access = v.access;
    same_key = v.same_key;
    own = v.own;
    quotes = v.quotes;
    given = v.given;
    source = elim v.source [ inl h ↦ inl h | inr (m, e) ↦ inr (inr m, e) ];
  }

  -- One call changes its place, and the logs grow.
  moves-AllAccounted :
      (pc : ℕ → Pc) (hits runs : List (Access W)) (waited : ℕ → Option ℕ) (i : ℕ) (p : Pc)
      → ((j : ℕ) (a : Error ⊎ List QuoteResult)
          → pc j ≡ answered a
          → IsAccounted hits runs waited j a)
      → ((a : Error ⊎ List QuoteResult) → p ≡ answered a → IsAccounted hits runs waited i a)
      → (j : ℕ) (a : Error ⊎ List QuoteResult) → update pc i p j ≡ answered a
      → IsAccounted hits runs waited j a
  moves-AllAccounted pc hits runs waited i p old new j a e = elim (Bool-cases (j == i)) [
    | inl same ↦
        let k : i ≡ j = ground arith in
        subst (λ x. IsAccounted hits runs waited x a) k (new a (ground arith))
    | inr other ↦ old j a (ground arith)
  ]

  joins-AllAccounted :
      (s : State) (i j : ℕ)
      → AllAccounted s
      → AllAccounted
          (record s { pc = update s.pc i (following j); waited = update s.waited i (some j) })
  joins-AllAccounted s i j v k a e =
      let r = v k a (ground arith) in
      record {
        access = r.access;
        same_key = r.same_key;
        own = ground (arith, r.own);
        quotes = r.quotes;
        given = r.given;
        source = r.source;
      }

  answered-injective : (a b : Error ⊎ List QuoteResult) → answered a ≡ answered b → a ≡ b
  answered-injective a b e = cc e

  looked_up-AllAccounted :
      (s : State) (i : ℕ) (found : W × Option (List QuoteResult))
      → AllAccounted s
      → (look_up repo (request i) s.world).1 ≡ found.1
      → AllAccounted (looked_up repo gather carriers breakers request group i s found)
  looked_up-AllAccounted s i (w, none) v e =
      moves-AllAccounted s.pc s.hits s.runs s.waited i missed v (λ a h. absurd (cc h))
  looked_up-AllAccounted s i (w, some quotes) v e =
      let x : Access W = record { caller = i; before = s.world } in
      moves-AllAccounted s.pc (x ∷ s.hits) s.runs s.waited i (answered (inr quotes))
        (λ j a h. more_hits-IsAccounted x s.hits s.runs s.waited j a (v j a h))
        (λ a h. record {
          access = x;
          same_key = refl;
          own = inl refl;
          quotes = quotes;
          given = sym (answered-injective (inr quotes) a h);
          source = inl (inl refl, e);
        })

  -- A fan-out of the call itself is logged.
  flown-AllAccounted :
      (s : State) (i : ℕ)
      → AllAccounted s
      → AllAccounted (flown repo gather carriers breakers request group i s (fly i s.world))
  flown-AllAccounted s i v =
      let x : Access W = record { caller = i; before = s.world } in
      let e = fan_out-succeeds repo gather carriers (breakers s.world) (request i) s.world in
      moves-AllAccounted s.pc s.hits (x ∷ s.runs) s.waited i (answered (fly i s.world).1)
        (λ j a h. more_runs-IsAccounted x s.hits s.runs s.waited j a (v j a h))
        (λ a h. record {
          access = x;
          same_key = refl;
          own = inl refl;
          quotes = _;
          given = sym (answered-injective (fly i s.world).1 a h) ∙ e;
          source = inr (inl refl, e);
        })

  shares-AllAccounted :
      (s : State) (i j : ℕ) (answer : Error ⊎ List QuoteResult)
      → IsShared repo gather carriers breakers request group s
      → IsWaiting repo gather carriers breakers request group s.pc s.waited
      → AllAccounted s
      → s.pc i ≡ following j
      → s.pc j ≡ answered answer
      → AllAccounted (record s { pc = update s.pc i (answered answer) })
  shares-AllAccounted s i j answer d x v e done =
      let r = v j answer done in
      let (here, clear) = x.waits i j e in
      let by_other : r.access.caller ≡ j = ground (arith, r.own, clear) in
      moves-AllAccounted s.pc s.hits s.runs s.waited i (answered answer) v (λ a h. record {
        access = r.access;
        same_key = r.same_key ∙ (d.followed i j e).0;
        own = inr (here ∙ ap some (sym by_other));
        quotes = r.quotes;
        given = sym (answered-injective answer a h) ∙ r.given;
        source = r.source;
      })

  SharingStep-AllAccounted :
      {s t : State}
      → SharingStep repo gather carriers breakers request group s t
      → IsShared repo gather carriers breakers request group s
      → IsWaiting repo gather carriers breakers request group s.pc s.waited
      → AllAccounted s
      → AllAccounted t
  SharingStep-AllAccounted {s} (looks_up i e) d x v =
      looked_up-AllAccounted s i (look_up repo (request i) s.world) v refl
  SharingStep-AllAccounted {s} (flies_alone i e named) d x v =
      moves-AllAccounted s.pc s.hits s.runs s.waited i alone v (λ a h. absurd (cc h))
  SharingStep-AllAccounted {s} (lands_alone i e) d x v = flown-AllAccounted s i v
  SharingStep-AllAccounted {s} (takes_off i e named free) d x v =
      moves-AllAccounted s.pc s.hits s.runs s.waited i leading v (λ a h. absurd (cc h))
  SharingStep-AllAccounted {s} (joins i j e named busy) d x v = joins-AllAccounted s i j v
  SharingStep-AllAccounted {s} (lands i e) d x v = flown-AllAccounted s i v
  SharingStep-AllAccounted {s} (shares i j answer e done) d x v =
      shares-AllAccounted s i j answer d x v e done
  SharingStep-AllAccounted {s} (others w) d x v = v

  SharingSteps-AllAccounted :
      {s t : State} {n : ℕ}
      → SharingSteps repo gather carriers breakers request group s n t
      → IsShared repo gather carriers breakers request group s
      → IsWaiting repo gather carriers breakers request group s.pc s.waited
      → AllAccounted s
      → IsWaiting repo gather carriers breakers request group t.pc t.waited × AllAccounted t
  SharingSteps-AllAccounted none_yet d x v = (x, v)
  SharingSteps-AllAccounted (step r m) d x v =
      let d' = SharingSteps-IsShared repo gather carriers breakers request group r d in
      let (x', v') = SharingSteps-AllAccounted r d x v in
      (
        SharingStep-IsWaiting repo gather carriers breakers request group m d' x',
        SharingStep-AllAccounted m d' x' v',
      )

  -- Every call that has returned has a list of quotes, never an error, which a lookup under its key has found or a
  -- fan-out under its key has given; that lookup or fan-out was its own or that of the call it has waited for.
  pub answered-IsAccounted :
      (w : W) (n : ℕ) (s : State) (i : ℕ) (a : Error ⊎ List QuoteResult)
      → SharingSteps repo gather carriers breakers request group
          (at_first repo gather carriers breakers request group w)
          n
          s
      → s.pc i ≡ answered a
      → IsAccounted s.hits s.runs s.waited i a
  answered-IsAccounted w n s i a r =
      (SharingSteps-AllAccounted r (at_first-IsShared repo gather carriers breakers request group w)
          (record { fresh = λ j f. refl; waits = λ j k e. cc e }) (λ j b e. cc e)).1
        i a
