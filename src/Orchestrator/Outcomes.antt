-- ===== src/Orchestrator/Outcomes.antt =====
-- What `GetQuotes` of internal/orchestrator/orchestrator.go may answer, and what it does to the state, as a
-- description that does not run it.
use text.Mathlib.Text.{◌==◌ as same_text}
use riskforge.Prelude.{
  ◌≡◌, ◌≢◌, refl, sym, ap, subst, true, false, not, ◌&&◌, List, [], ◌∷◌, Option, none, some, ◌⊎◌,
  inl, inr, Dict, read, if◌then◌else◌, Bool-cases, Option-cases,
}
use riskforge.Prelude.Int.{ℤ, pos, leb_ℤ}
use riskforge.Domain.{QuoteRequest, QuoteResult, Carrier}
use riskforge.Domain.Errors.{Error}
use riskforge.Breaker.{Breaker}
use riskforge.Orchestrator.CacheKey.{scoped_key}
use riskforge.Orchestrator.Response.{respond, IsResponse, respond_characterised}
use riskforge.Orchestrator.Eligible.{
  is_open, serves, select, filter_eligible_carriers, filter_eligible_carriers-select,
}
use riskforge.Orchestrator.Quotes
use riskforge.Orchestrator.Quotes.{
  QuoteRepository, Gather, default_request_timeout, gather_from, look_up, store, fan_out,
  get_quotes,
}

module _ {F W : Type 0} (repo : Option (QuoteRepository W)) (req : QuoteRequest F) where
  -- The repository is there and the request has an identifier.
  abbrev pub IsKept : QuoteRepository W → Type 0
  IsKept r = (repo ≡ some r) × (same_text req.request_id "" ≡ false)

  -- The cache has the quotes, or it has none, the lookup fails, or it cannot be asked.
  pub data Lookup (w : W) : W → Option (List QuoteResult) → Type 0 where
    found :
        (r : QuoteRepository W) (w' : W) (quotes : List QuoteResult)
        → IsKept r
        → r.find_by_request_id (scoped_key req) w ≡ (w', inr (some quotes))
        → Lookup w w' (some quotes)
    miss :
        (r : QuoteRepository W) (w' : W)
        → IsKept r
        → r.find_by_request_id (scoped_key req) w ≡ (w', inr none)
        → Lookup w w' none
    failed :
        (r : QuoteRepository W) (w' : W) (e : Error)
        → IsKept r
        → r.find_by_request_id (scoped_key req) w ≡ (w', inl e)
        → Lookup w w' none
    not_asked : (repo ≡ none) ⊎ (same_text req.request_id "" ≡ true) → Lookup w w none

  -- Quotes are saved if there are any and they can be, whatever the save says.
  pub data Stores (answer : List QuoteResult) (w : W) : W → Type 0 where
    saves :
        (r : QuoteRepository W)
        → IsKept r
        → answer ≢ []
        → Stores answer w (r.save (scoped_key req) answer w).0
    skips : (answer ≡ []) ⊎ (repo ≡ none) ⊎ (same_text req.request_id "" ≡ true) → Stores answer w w

  found-Lookup :
      (r : QuoteRepository W) (w : W) (p : W × (Error ⊎ Option (List QuoteResult)))
      → IsKept r
      → r.find_by_request_id (scoped_key req) w ≡ p
      → Lookup w p.0 (Quotes.hit p.1)
  found-Lookup r w (w', inl e) k h = failed r w' e k h
  found-Lookup r w (w', inr none) k h = miss r w' k h
  found-Lookup r w (w', inr (some quotes)) k h = found r w' quotes k h

  look_up-Lookup : (w : W) → Lookup w (look_up repo req w).0 (look_up repo req w).1
  unfolding look_up
  look_up-Lookup w = elim (Option-cases repo) [
    | inl e ↦
        let same : look_up repo req w ≡ (w, none) = rw e refl in
        subst (λ p. Lookup w p.0 p.1) (sym same) (not_asked (inl e))
    | inr (r, e) ↦ elim (Bool-cases (same_text req.request_id "")) [
      | inl b ↦
          let same : look_up repo req w ≡ (w, none) = rw (e, b) refl in
          subst (λ p. Lookup w p.0 p.1) (sym same) (not_asked (inr b))
      | inr b ↦
          let p = r.find_by_request_id (scoped_key req) w in
          let same : look_up repo req w ≡ (p.0, Quotes.hit p.1) = rw (e, b) refl in
          subst (λ p. Lookup w p.0 p.1) (sym same) (found-Lookup r w p (e, b) refl)
    ]
  ]

  store-Stores : (answer : List QuoteResult) (w : W) → Stores answer w (store repo req answer w)
  unfolding store
  store-Stores [] w = skips (inl refl)
  store-Stores (q ∷ qs) w = elim (Option-cases repo) [
    | inl e ↦
        let same : store repo req (q ∷ qs) w ≡ w = rw e refl in
        subst (Stores (q ∷ qs) w) (sym same) (skips (inr (inl e)))
    | inr (r, e) ↦ elim (Bool-cases (same_text req.request_id "")) [
      | inl b ↦
          let same : store repo req (q ∷ qs) w ≡ w = rw (e, b) refl in
          subst (Stores (q ∷ qs) w) (sym same) (skips (inr (inr b)))
      | inr b ↦
          let same : store repo req (q ∷ qs) w ≡ (r.save (scoped_key req) (q ∷ qs) w).0 =
            rw (e, b) refl in
          subst (Stores (q ∷ qs) w) (sym same) (saves r (e, b) (λ h. cc h))
    ]
  ]

module _ {F W : Type 0} (repo : Option (QuoteRepository W)) (gather : Gather F W)
    (carriers : List (Carrier F)) (breakers : Dict Breaker) (req : QuoteRequest F) where
  -- The carriers of the configuration that serve a requested line and whose breaker is not Open.
  abbrev pub eligible : List (Carrier F)
  eligible =
      select (λ c. not (is_open (read breakers c.id)) && serves req.coverage_lines c) carriers

  abbrev pub time_given : ℤ
  time_given = if leb_ℤ req.timeout (pos 0) then default_request_timeout else req.timeout

  pub data Outcome (w : W) : W × (Error ⊎ List QuoteResult) → Type 0 where
    from_cache :
        {w' : W} {quotes : List QuoteResult}
        → Lookup repo req w w' (some quotes)
        → Outcome w (w', inr quotes)
    none_eligible : {w' : W} → Lookup repo req w w' none → eligible ≡ [] → Outcome w (w', inr [])
    gathered :
        {w' w'' : W} {arrived answer : List QuoteResult} {last : W}
        → Lookup repo req w w' none
        → eligible ≢ []
        → gather eligible time_given req w' ≡ (w'', arrived)
        → IsResponse arrived answer
        → Stores repo req answer w'' last
        → Outcome w (last, inr answer)

  gather_from-Outcome :
      (w w' : W) (cs : List (Carrier F))
      → Lookup repo req w w' none
      → cs ≡ eligible
      → Outcome w (gather_from repo gather carriers breakers cs req w')
  unfolding gather_from
  gather_from-Outcome w w' [] looked e = none_eligible looked (sym e)
  gather_from-Outcome w w' (c ∷ cs) looked e =
      let (w'', arrived) = gather (c ∷ cs) time_given req w' in
      gathered looked (λ h. cc (h, e)) (ap (λ l. gather l time_given req w') (sym e))
        ((respond_characterised arrived (respond arrived)).1 refl)
        (store-Stores repo req (respond arrived) w'')

  looked-Outcome :
      (w : W) (p : W × Option (List QuoteResult))
      → Lookup repo req w p.0 p.1
      → Outcome w (elim p.1 [
        | some quotes ↦ (p.0, inr quotes)
        | none ↦ fan_out repo gather carriers breakers req p.0
      ])
  unfolding fan_out
  looked-Outcome w (w', some quotes) looked = from_cache looked
  looked-Outcome w (w', none) looked =
      gather_from-Outcome w w' (filter_eligible_carriers carriers breakers req.coverage_lines)
        looked (filter_eligible_carriers-select carriers breakers req.coverage_lines)

  -- A request never fails. If the cache can be asked and has quotes, it is answered with them. If it has none, fails,
  -- or cannot be asked: with the empty list and nothing more, if no carrier of the configuration serves a requested
  -- line and has a breaker that is not Open; and otherwise with the sorted first results of the carriers among what
  -- arrived in time from those carriers, which are saved under the request's key if there are any and they can be,
  -- whatever the save says.
  pub get_quotes-Outcome : (w : W) → Outcome w (get_quotes repo gather carriers breakers req w)
  unfolding get_quotes
  get_quotes-Outcome w = looked-Outcome w (look_up repo req w) (look_up-Lookup repo req w)
