-- ===== src/Spanner/Quotes.antt =====
-- `QuoteRepo` of internal/adapter/spanner/quote_repo.go. The Spanner client is a parameter; what is
-- assumed of it is that a table has at most one row for a primary key, that InsertOrUpdate replaces the
-- row of its key, and what the statement of `FindByRequestID` asks for.
use riskforge.Prelude.{
  ℕ, ◌≡◌, ◌<◌, ◌↔◌, refl, sym, ap, subst, ◌∙◌, String, Bool, ◌&&◌, List, [], ◌∷◌, map, Option, none,
  some, ◌⊎◌, inl, inr, arith, any, false, OneOf, OneOf-map, OneOf-map_back, if◌then◌else◌, length,
}
use text.Mathlib.Text.{◌==◌ as same_text}
use text.Mathlib.TextPositions.{eq_refl}
use riskforge.Orchestrator.Collect.{first, Distinct}
use riskforge.Prelude.Int.{ℤ, milliseconds, times_million}
use riskforge.Domain.{QuoteResult}
use riskforge.Domain.Errors.{Error, wrap}

-- The columns that the code names; CreatedAt is the commit timestamp.
pub record QuoteRow : Type 0 where
  pub request_id : String
  pub carrier_id : String
  pub premium_cents : ℤ
  pub currency : String
  pub expires_at : ℕ
  pub is_hedged : Bool
  pub latency_ms : ℤ
  pub carrier_ref : String

unfoldable pub quote_row : String → QuoteResult → QuoteRow
quote_row request_id q = record {
  request_id = request_id;
  carrier_id = q.carrier_id;
  premium_cents = q.premium.amount;
  currency = q.premium.currency;
  expires_at = q.expires_at;
  is_hedged = q.is_hedged;
  latency_ms = milliseconds q.latency;
  carrier_ref = q.carrier_ref;
}

unfoldable pub result_of_row : String → QuoteRow → QuoteResult
result_of_row request_id q = record {
  request_id = request_id;
  carrier_id = q.carrier_id;
  premium = record { amount = q.premium_cents; currency = q.currency };
  expires_at = q.expires_at;
  carrier_ref = q.carrier_ref;
  latency = times_million q.latency_ms;
  is_hedged = q.is_hedged;
}

-- The last mutation for a key.
abbrev pub last_write : String → String → List QuoteRow → Option QuoteRow → Option QuoteRow
last_write rid cid [] old = old
last_write rid cid (m ∷ ms) old =
    last_write rid cid ms
      (if same_text m.request_id rid && same_text m.carrier_id cid then some m else old)

-- No two rows of one carrier.
abbrev pub OnceEach : List QuoteRow → Type 0
OnceEach [] = Unit
OnceEach (r ∷ rs) = (any (λ x. same_text x.carrier_id r.carrier_id) rs ≡ false) × OnceEach rs

-- The client on a database `W`, which `row` reads by primary key and `clock` gives the
-- current timestamp of. `apply` writes InsertOrUpdate mutations, `find` is the query
--   WHERE RequestID = @requestID AND ExpiresAt > CURRENT_TIMESTAMP()
-- and `delete_expired` the statement DELETE ... WHERE ExpiresAt <= CURRENT_TIMESTAMP().
pub record SpannerClient (W : Type 0) : Type 0 where
  pub clock : W → ℕ
  pub row : String → String → W → Option QuoteRow
  pub apply : List QuoteRow → W → W × Option Error
  pub find : String → W → W × (Error ⊎ List QuoteRow)
  pub delete_expired : W → W × (Error ⊎ ℕ)
  -- A commit has the last write for each key.
  pub apply_row :
      (ms : List QuoteRow) (w : W) (rid cid : String)
      → (apply ms w).1 ≡ none
      → row rid cid (apply ms w).0 ≡ last_write rid cid ms (row rid cid w)
  -- The rows of an answer are those of the request that are live, when they are at most 10000.
  pub find_rows :
      (rid : String) (w : W) (rs : List QuoteRow) (r : QuoteRow)
      → (find rid w).1 ≡ inr rs
      → length rs < 10_000
      → OneOf r rs
        ↔ ((r.request_id ≡ rid) × (row rid r.carrier_id w ≡ some r) × (clock w < r.expires_at))
  -- An answer has a row of the table once, and the table has one row for a request and a carrier.
  pub find_once :
      (rid : String) (w : W) (rs : List QuoteRow) → (find rid w).1 ≡ inr rs → OnceEach rs

-- The error with its message, if there is one.
abbrev wrapped : String → Option Error → Option Error
wrapped message none = none
wrapped message (some e) = some (wrap message e)

-- A miss, `ok` false, is none.
abbrev hit_or_miss : List QuoteResult → Option (List QuoteResult)
hit_or_miss [] = none
hit_or_miss (q ∷ qs) = some (q ∷ qs)

abbrev found : String → Error ⊎ List QuoteRow → Error ⊎ Option (List QuoteResult)
found request_id (inl e) = inl (wrap "find quotes" e)
found request_id (inr rows) = inr (hit_or_miss (map (result_of_row request_id) rows))

module _ {W : Type 0} (client : SpannerClient W) where
  unfoldable pub save : String → List QuoteResult → W → W × Option Error
  save request_id results w =
      let (w', failed) = client.apply (map (quote_row request_id) results) w in
      (w', wrapped "save quotes" failed)

  unfoldable pub find_by_request_id : String → W → W × (Error ⊎ Option (List QuoteResult))
  find_by_request_id request_id w =
      let (w', answer) = client.find request_id w in (w', found request_id answer)

  unfoldable pub delete_expired : W → W × (Error ⊎ ℕ)
  delete_expired w =
      let (w', answer) = client.delete_expired w in
      elim answer [ inl e ↦ (w', inl (wrap "delete expired" e)) | inr n ↦ (w', inr n) ]

-- A result as it comes back from the table: under the key, with its latency cut to milliseconds.
abbrev pub stored : String → QuoteResult → QuoteResult
stored key q = record q { request_id = key; latency = times_million (milliseconds q.latency) }

pub last_write-none :
    (key cid : String) (qs : List QuoteResult) (old : Option QuoteRow)
    → first cid qs ≡ none
    → last_write key cid (map (quote_row key) qs) old ≡ old
unfolding first quote_row
last_write-none key cid [] old h = refl
last_write-none key cid (q ∷ qs) old h = ground (arith, last_write-none key cid qs old)

last_write-head :
    (key : String) (q : QuoteResult) (qs : List QuoteResult) (old : Option QuoteRow)
    → first q.carrier_id qs ≡ none
    → last_write key q.carrier_id (map (quote_row key) (q ∷ qs)) old ≡ some (quote_row key q)
unfolding quote_row
last_write-head key q qs old h = ground (
  arith,
  last_write-none key q.carrier_id qs (some (quote_row key q)),
  eq_refl key,
  eq_refl q.carrier_id,
)

pub last_write-some :
    (key : String) (q : QuoteResult) (qs : List QuoteResult) (old : Option QuoteRow)
    → Distinct qs
    → OneOf q qs
    → last_write key q.carrier_id (map (quote_row key) qs) old ≡ some (quote_row key q)
unfolding quote_row
last_write-some key q [] old d m = absurd m
last_write-some key q (x ∷ qs) old (d, ds) (inl e) =
    subst
      (λ (y : QuoteResult).
        last_write key y.carrier_id (map (quote_row key) (x ∷ qs)) old ≡ some (quote_row key y))
      (sym e) (last_write-head key x qs old d)
last_write-some key q (x ∷ qs) old (d, ds) (inr m) =
    last_write-some key q qs
      (if same_text key key && same_text x.carrier_id q.carrier_id
        then some (quote_row key x)
        else old)
      ds m

hit_or_miss-some : (c : QuoteResult) (qs : List QuoteResult) → OneOf c qs → hit_or_miss qs ≡ some qs
hit_or_miss-some c [] m = absurd m
hit_or_miss-some c (q ∷ qs) m = refl

first-result_of_row :
    (key cid : String) (rs : List QuoteRow)
    → any (λ x. same_text x.carrier_id cid) rs ≡ false
    → first cid (map (result_of_row key) rs) ≡ none
unfolding first result_of_row
first-result_of_row key cid [] h = refl
first-result_of_row key cid (r ∷ rs) h = ground (arith, first-result_of_row key cid rs)

pub result_of_row-Distinct :
    (key : String) (rs : List QuoteRow) → OnceEach rs → Distinct (map (result_of_row key) rs)
unfolding result_of_row
result_of_row-Distinct key [] h = tt
result_of_row-Distinct key (r ∷ rs) (h, hs) =
    (first-result_of_row key r.carrier_id rs h, result_of_row-Distinct key rs hs)

pub wrapped-none : (message : String) (o : Option Error) → wrapped message o ≡ none → o ≡ none
wrapped-none message none h = refl
wrapped-none message (some e) h = cc

pub save_row :
    {W : Type 0} (client : SpannerClient W) (key : String) (results : List QuoteResult) (w : W)
    (q : QuoteResult)
    → Distinct results
    → (save client key results w).1 ≡ none
    → OneOf q results
    → client.row key q.carrier_id (save client key results w).0 ≡ some (quote_row key q)
unfolding save
save_row client key results w q d ok m =
    client.apply_row (map (quote_row key) results) w key q.carrier_id (wrapped-none _ _ ok)
    ∙ last_write-some key q results (client.row key q.carrier_id w) d m

module _ {W : Type 0} (client : SpannerClient W) (key : String) (w : W) (rs : List QuoteRow)
    (q : QuoteResult) (answered : (client.find key w).1 ≡ inr rs) (few : length rs < 10_000)
    (kept : client.row key q.carrier_id w ≡ some (quote_row key q)) where
  -- The row of the query for the carrier is the row that was kept.
  row_unique : (r : QuoteRow) → OneOf r rs → r.carrier_id ≡ q.carrier_id → r ≡ quote_row key q
  row_unique r m e =
      let (_, here, _) = (client.find_rows key w rs r answered few).0 m in
      cc (here, ap (λ cid. client.row key cid w) e, kept)

  row_present : client.clock w < q.expires_at → OneOf (quote_row key q) rs
  unfolding quote_row
  row_present live = (client.find_rows key w rs (quote_row key q) answered few).1 (refl, kept, live)

  found-stored :
      (c : QuoteResult)
      → OneOf c (map (result_of_row key) rs)
      → c.carrier_id ≡ q.carrier_id
      → c ≡ stored key q
  unfolding result_of_row quote_row
  found-stored c m e =
      let (r, n, h) = OneOf-map_back (result_of_row key) c rs m in
      h
      ∙ ap (result_of_row key) (row_unique r n (ap (λ (x : QuoteResult). x.carrier_id) (sym h) ∙ e))

  stored-found : client.clock w < q.expires_at → OneOf (stored key q) (map (result_of_row key) rs)
  unfolding result_of_row quote_row
  stored-found live = OneOf-map (result_of_row key) (quote_row key q) rs (row_present live)

-- A result that `Save` has stored is found by `FindByRequestID`, while it is live: if the query succeeds, with
-- fewer than 10000 rows, the lookup is a hit, with one result of a carrier at most; and among the cached results those of
-- the carrier are exactly its stored form, which has the key for its request identifier and its latency cut to
-- milliseconds.
pub find_by_request_id-save :
    {W : Type 0} (client : SpannerClient W) (key : String) (results : List QuoteResult) (w : W)
    (rs : List QuoteRow) (q : QuoteResult)
    → Distinct results
    → (save client key results w).1 ≡ none
    → (client.find key (save client key results w).0).1 ≡ inr rs
    → length rs < 10_000
    → OneOf q results
    → client.clock (save client key results w).0 < q.expires_at
    → (cached : List QuoteResult) × ((find_by_request_id client key (save client key results w).0).1
        ≡ inr (some cached))
      × Distinct cached
      × ((c : QuoteResult) → (OneOf c cached × (c.carrier_id ≡ q.carrier_id)) ↔ (c ≡ stored key q))
unfolding find_by_request_id
find_by_request_id-save client key results w rs q d ok answered few m live =
    let w' = (save client key results w).0 in
    let kept = save_row client key results w q d ok m in
    let cached = map (result_of_row key) rs in
    let here : OneOf (stored key q) cached =
      stored-found client key w' rs q answered few kept live in
    (
      cached,
      ap (found key) answered ∙ ap inr (hit_or_miss-some (stored key q) cached here),
      result_of_row-Distinct key rs (client.find_once key w' rs answered),
      λ c. (
        λ h. found-stored client key w' rs q answered few kept c h.0 h.1,
        λ h. (subst (λ y. OneOf y cached) (sym h) here, ap (λ (x : QuoteResult). x.carrier_id) h),
      ),
    )
