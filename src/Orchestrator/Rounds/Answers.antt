-- ===== src/Orchestrator/Rounds/Answers.antt =====
-- The answers of internal/orchestrator/orchestrator.go to one request after another.
use riskforge.Prelude.{◌≡◌, refl, List, [], ◌∷◌, some, All, OneOf, All-OneOf}
use riskforge.Prelude.Float.{Float}
use riskforge.Domain.{QuoteResult, Carrier}
use riskforge.RateLimiter.{TokenBucket}
use riskforge.Adapter.Registry.{AdapterRegistry}
use riskforge.Orchestrator.Collect.{Distinct}
use riskforge.Orchestrator.Sorting.{IsSorted}
use riskforge.Orchestrator.Response.{respond, respond_characterised, respond-OneOf}
use riskforge.Orchestrator.Eligible.{filter_eligible_carriers, eligible-OneOf}
use riskforge.Orchestrator.Rounds.{Engine, Round, run_rounds}
use riskforge.Orchestrator.Rounds.Readiness.{Echoes, IsReady, Keeps, call_all-Succeed}

module _ (float : Float) (bucket : TokenBucket float.F) (W : Type 0)
    (registry : AdapterRegistry float.F W) where
  open float use {F}

  -- A response to the request of the round.
  pub record IsAnswer (r : Round float bucket W) (answer : List QuoteResult) : Type 0 where
    pub sorted : IsSorted answer
    pub distinct : Distinct answer
    pub echoed : (q : QuoteResult) → OneOf q answer → Echoes r.request.request_id q

  -- One answer for each round.
  abbrev pub AreAnswers : List (Round float bucket W) → List (List QuoteResult) → Type 0
  AreAnswers [] [] = Unit
  AreAnswers [] (a ∷ answers) = ⊥
  AreAnswers (r ∷ rs) [] = ⊥
  AreAnswers (r ∷ rs) (a ∷ answers) = IsAnswer r a × AreAnswers rs answers

  respond-IsAnswer :
      (r : Round float bucket W) (arrived : List QuoteResult)
      → All (Echoes r.request.request_id) arrived
      → IsAnswer r (respond arrived)
  respond-IsAnswer r arrived echoed =
      let v = (respond_characterised arrived (respond arrived)).1 refl in
      record {
        sorted = v.sorted;
        distinct = v.distinct;
        echoed = λ q m.
            All-OneOf (Echoes r.request.request_id) q arrived echoed (respond-OneOf arrived q m);
      }

  pub run_rounds-AreAnswers :
      (carriers : List (Carrier F)) (rs : List (Round float bucket W)) (e : Engine float bucket W)
      → ((c : Carrier F) → OneOf c carriers → IsReady float bucket W registry e c.id)
      → (e' : Engine float bucket W) × (answers : List (List QuoteResult)) × (run_rounds float
            bucket W registry carriers rs e
          ≡ some (e', answers))
        × Keeps float bucket W registry e e'
        × AreAnswers rs answers
  unfolding run_rounds
  run_rounds-AreAnswers carriers [] e ready = (e, [], refl, λ id h. h, tt)
  run_rounds-AreAnswers carriers (r ∷ rs) e ready =
      let lines = r.request.coverage_lines in
      let (e', arrived, called_all, one) =
        call_all-Succeed float bucket W registry r
          (filter_eligible_carriers carriers e.breakers lines)
          (filter_eligible_carriers carriers e.breakers lines) e
          (λ c m. ready c (eligible-OneOf carriers e.breakers lines c m))
          (λ c m. ready c (eligible-OneOf carriers e.breakers lines c m)) in
      let (e'', answers, ran, kept, answered) =
        run_rounds-AreAnswers carriers rs e' (λ c m. one.keeps c.id (ready c m)) in
      (
        e'',
        respond arrived ∷ answers,
        rw (called_all, ran, run_rounds) refl,
        λ id h. kept id (one.keeps id h),
        (respond-IsAnswer r arrived one.echoed, answered),
      )
