-- ===== src/Service/Cache.antt =====
-- `GetQuotes` of internal/orchestrator/orchestrator.go over the repository of
-- internal/adapter/spanner/quote_repo.go: a request that comes again.
use text.Mathlib.Text.{◌==◌ as same_text}
use riskforge.Prelude.{
  ◌≡◌, ◌≤◌, ◌<◌, ◌↔◌, refl, sym, ap, subst, ◌∙◌, String, false, List, [], ◌∷◌, map, none, some, ◌⊎◌,
  inl, inr, arith, OneOf, OneOf-map, OneOf-map_back, length, Option-cases, Dict, if◌then◌else◌,
}
use riskforge.Prelude.Int.{ℤ, pos, leb_ℤ}
use riskforge.Domain.{QuoteRequest, QuoteResult, Carrier}
use riskforge.Domain.Errors.{Error}
use riskforge.Breaker.{Breaker}
use riskforge.Orchestrator.Collect.{first, Distinct}
use riskforge.Orchestrator.Response.{first-OneOf, respond, respond_characterised}
use riskforge.Orchestrator.Eligible.{filter_eligible_carriers}
use riskforge.Orchestrator.CacheKey.{scoped_key}
use riskforge.Orchestrator.Quotes.{QuoteRepository, Gather, default_request_timeout, get_quotes}
use riskforge.Spanner.Quotes.{
  QuoteRow, quote_row, result_of_row, SpannerClient, last_write, last_write-none, last_write-some,
  wrapped-none, result_of_row-Distinct, save, find_by_request_id, stored,
}

-- `QuoteRepo` as the port that the orchestrator has.
abbrev pub repository : {W : Type 0} → SpannerClient W → QuoteRepository W
repository client = record { find_by_request_id = find_by_request_id client; save = save client }

inr-injective :
    (xs ys : List QuoteResult) → Path (Error ⊎ List QuoteResult) (inr xs) (inr ys) → xs ≡ ys
inr-injective xs ys h = cc

save-last_write :
    {W : Type 0} (client : SpannerClient W) (key : String) (results : List QuoteResult) (w : W)
    (cid : String)
    → (save client key results w).1 ≡ none
    → client.row key cid (save client key results w).0
      ≡ last_write key cid (map (quote_row key) results) (client.row key cid w)
unfolding save
save-last_write client key results w cid ok =
    client.apply_row (map (quote_row key) results) w key cid (wrapped-none _ _ ok)

-- A table after `Save`, in which no row of the key was live before: its live rows of the key are the rows
-- of the results.
module _ {W : Type 0} (client : SpannerClient W) (key : String) (results : List QuoteResult)
    (before saved later : W) (distinct : Distinct results)
    (wrote : (cid : String)
      → client.row key cid saved
        ≡ last_write key cid (map (quote_row key) results) (client.row key cid before))
    (kept : (cid : String) → client.row key cid later ≡ client.row key cid saved)
    (no_time : client.clock before ≤ client.clock later)
    (none_live : (client.find key before).1 ≡ inr []) (rows : List QuoteRow)
    (answered : (client.find key later).1 ≡ inr rows) (few : length rows < 10_000) where
  old_row :
      (r : QuoteRow)
      → r.request_id ≡ key
      → client.row key r.carrier_id before ≡ some r
      → client.clock later < r.expires_at
      → ⊥
  old_row r k here live =
      (client.find_rows key before [] r none_live (omega arith)).1 (k, here, omega (arith, no_time))

  row-quote_row :
      (r : QuoteRow) → OneOf r rows → (q : QuoteResult) × OneOf q results × (r ≡ quote_row key q)
  row-quote_row r m =
      let (k, here, live) = (client.find_rows key later rows r answered few).0 m in
      let now_row = sym (kept r.carrier_id ∙ wrote r.carrier_id) ∙ here in
      elim (Option-cases (first r.carrier_id results)) [
        | inl e ↦ absurd (
            old_row r k
              (sym (last_write-none key r.carrier_id results (client.row key r.carrier_id before) e)
                ∙ now_row)
              live)
        | inr (q, e) ↦
            let (n, c) = first-OneOf r.carrier_id results q e in
            (
              q,
              n,
              cc (
                now_row,
                last_write-some key q results (client.row key q.carrier_id before) distinct n,
                ap
                    (λ cid.
                      last_write key cid (map (quote_row key) results) (client.row key cid before))
                    c,
              ),
            )
      ]

  -- A result that is still live has its row.
  quote_row-rows :
      (q : QuoteResult)
      → OneOf q results
      → client.clock later < q.expires_at
      → OneOf (quote_row key q) rows
  unfolding quote_row
  quote_row-rows q m live = (client.find_rows key later rows (quote_row key q) answered few).1 (
    refl,
    kept q.carrier_id
        ∙ wrote q.carrier_id
        ∙ last_write-some key q results (client.row key q.carrier_id before) distinct m,
    live,
  )

  result-stored : (q : QuoteResult) → result_of_row key (quote_row key q) ≡ stored key q
  unfolding result_of_row quote_row
  result-stored q = refl

  cached-stored :
      (c : QuoteResult)
      → OneOf c (map (result_of_row key) rows)
      → (q : QuoteResult) × OneOf q results × (c ≡ stored key q)
  cached-stored c m =
      let (r, n, e) = OneOf-map_back (result_of_row key) c rows m in
      let (q, k, f) = row-quote_row r n in (q, k, e ∙ ap (result_of_row key) f ∙ result-stored q)

  stored-cached :
      (q : QuoteResult)
      → OneOf q results
      → client.clock later < q.expires_at
      → OneOf (stored key q) (map (result_of_row key) rows)
  stored-cached q m live =
      subst (λ c. OneOf c (map (result_of_row key) rows)) (result-stored q)
        (OneOf-map (result_of_row key) (quote_row key q) rows (quote_row-rows q m live))

module _ {F W : Type 0} (client : SpannerClient W) (gather : Gather F W)
    (carriers : List (Carrier F)) (breakers : Dict Breaker) (req : QuoteRequest F) where
  abbrev pub ask : W → W × (Error ⊎ List QuoteResult)
  ask w = get_quotes (some (repository client)) gather carriers breakers req w

  abbrev pub time_allowed : ℤ
  time_allowed = if leb_ℤ req.timeout (pos 0) then default_request_timeout else req.timeout

  -- What arrives, if the cache is asked in `w` and has nothing.
  abbrev pub gathered : Carrier F → List (Carrier F) → W → W × List QuoteResult
  gathered c cs w = gather (c ∷ cs) time_allowed req (client.find (scoped_key req) w).0

  asked_miss :
      (w : W) (c : Carrier F) (cs : List (Carrier F)) (q : QuoteResult) (qs : List QuoteResult)
      → same_text req.request_id "" ≡ false
      → filter_eligible_carriers carriers breakers req.coverage_lines ≡ c ∷ cs
      → (client.find (scoped_key req) w).1 ≡ inr []
      → respond (gathered c cs w).1 ≡ q ∷ qs
      → ask w ≡ ((save client (scoped_key req) (q ∷ qs) (gathered c cs w).0).0, inr (q ∷ qs))
  unfolding get_quotes find_by_request_id
  asked_miss w c cs q qs named eligible miss answer = ground arith

  asked_hit :
      (w : W) (r : QuoteRow) (rows : List QuoteRow)
      → same_text req.request_id "" ≡ false
      → (client.find (scoped_key req) w).1 ≡ inr (r ∷ rows)
      → ask w ≡ (
        (client.find (scoped_key req) w).0,
        inr (map (result_of_row (scoped_key req)) (r ∷ rows)),
      )
  unfolding get_quotes find_by_request_id
  asked_hit w r rows named hit = ground arith

  ask-respond :
      (w : W) (c : Carrier F) (cs : List (Carrier F))
      → same_text req.request_id "" ≡ false
      → filter_eligible_carriers carriers breakers req.coverage_lines ≡ c ∷ cs
      → (client.find (scoped_key req) w).1 ≡ inr []
      → (ask w).1 ≡ inr (respond (gathered c cs w).1)
  unfolding get_quotes find_by_request_id
  ask-respond w c cs named eligible miss = ground arith

  asked_again :
      (later : W) (rows : List QuoteRow) (x : QuoteRow)
      → same_text req.request_id "" ≡ false
      → (client.find (scoped_key req) later).1 ≡ inr rows
      → OneOf x rows
      → ask later
        ≡ ((client.find (scoped_key req) later).0, inr (map (result_of_row (scoped_key req)) rows))
  asked_again later [] x named found m = absurd m
  asked_again later (r ∷ rows) x named found m = asked_hit later r rows named found

  -- A request that comes again is answered from the table. The first request found no live row of its key
  -- and gave quotes, which were saved without an error; the calls of the carriers did not change the rows
  -- of the key, nor did anything between the two requests; the clock did not go back, and the quotes are
  -- still live. Then the second request calls no carrier and gives, in some order, exactly the stored forms of
  -- the quotes that the first one gave: one result of a carrier at most, and a result is given if and only if it is
  -- such a stored form.
  pub ask_again :
      (w later : W) (c : Carrier F) (cs : List (Carrier F)) (q : QuoteResult)
      (qs : List QuoteResult) (rows : List QuoteRow)
      → same_text req.request_id "" ≡ false
      → filter_eligible_carriers carriers breakers req.coverage_lines ≡ c ∷ cs
      → (client.find (scoped_key req) w).1 ≡ inr []
      → (ask w).1 ≡ inr (q ∷ qs)
      → (save client (scoped_key req) (q ∷ qs) (gathered c cs w).0).1 ≡ none
      → ((cid : String)
          → client.row (scoped_key req) cid (gathered c cs w).0 ≡ client.row (scoped_key req) cid w)
      → ((cid : String)
          → client.row (scoped_key req) cid later ≡ client.row (scoped_key req) cid (ask w).0)
      → client.clock w ≤ client.clock later
      → (client.find (scoped_key req) later).1 ≡ inr rows
      → length rows < 10_000
      → ((x : QuoteResult) → OneOf x (q ∷ qs) → client.clock later < x.expires_at)
      → (cached : List QuoteResult) × (ask later
          ≡ ((client.find (scoped_key req) later).0, inr cached))
        × Distinct cached
        × ((a : QuoteResult)
            → OneOf a cached
              ↔ ((x : QuoteResult) × OneOf x (q ∷ qs) × (a ≡ stored (scoped_key req) x)))
  ask_again w later c cs q qs rows named eligible miss first_answer saved quiet kept clock found few
        live =
      let key = scoped_key req in
      let w' = (gathered c cs w).0 in
      let w'' = (save client key (q ∷ qs) w').0 in
      let answer : respond (gathered c cs w).1 ≡ q ∷ qs =
        inr-injective (respond (gathered c cs w).1) (q ∷ qs)
          (sym (ask-respond w c cs named eligible miss) ∙ first_answer) in
      let distinct : Distinct (q ∷ qs) =
        ((respond_characterised (gathered c cs w).1 (q ∷ qs)).1 (sym answer)).distinct in
      let wrote : (cid : String)
          → client.row key cid w''
            ≡ last_write key cid (map (quote_row key) (q ∷ qs)) (client.row key cid w) =
        λ cid.
          save-last_write client key (q ∷ qs) w' cid saved
          ∙ ap (last_write key cid (map (quote_row key) (q ∷ qs))) (quiet cid) in
      let stays : (cid : String) → client.row key cid later ≡ client.row key cid w'' = λ cid.
        kept cid
        ∙ ap (λ (p : W × (Error ⊎ List QuoteResult)). client.row key cid p.0)
            (asked_miss w c cs q qs named eligible miss answer) in
      (
        map (result_of_row key) rows,
        asked_again later rows (quote_row key q) named found (
            quote_row-rows client key (q ∷ qs) w w'' later distinct wrote stays clock miss rows
              found few q (inl refl) (live q (inl refl))),
        result_of_row-Distinct key rows (client.find_once key later rows found),
        λ a. (
          λ m.
              cached-stored client key (q ∷ qs) w w'' later distinct wrote stays clock miss rows
                found few a m,
          λ (x, m, e).
              subst (λ y. OneOf y (map (result_of_row key) rows)) (sym e)
                (stored-cached client key (q ∷ qs) w w'' later distinct wrote stays clock miss rows
                  found few x m (live x m)),
        ),
      )
