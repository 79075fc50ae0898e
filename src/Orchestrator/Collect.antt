-- ===== src/Orchestrator/Collect.antt =====
-- The collecting loop of `fanOut` in internal/orchestrator/orchestrator.go, over the results in the
-- order in which the channel delivers them: the first result of each carrier is kept.
use text.Mathlib.Text.{◌==◌ as same_text}
use text.Mathlib.TextEquality.{eq_iff}
use riskforge.Prelude.{
  ◌≡◌, refl, String, Bool, true, false, List, [], ◌∷◌, ◌++◌, Option, none, some, arith, inl, inr,
  Bool-cases, Dict, read, write, read-write, if◌then◌else◌,
}
use riskforge.Domain.{QuoteResult}

-- `seen[id]`, which is false on a missing key.
abbrev pub flag : Option Bool → Bool
flag none = false
flag (some b) = b

unfoldable pub collect_from : Dict Bool → List QuoteResult → List QuoteResult → List QuoteResult
collect_from seen collected [] = collected
collect_from seen collected (r ∷ rs) =
    let kept = collect_from (write seen r.carrier_id true) (collected ++ (r ∷ [])) rs in
    let dropped = collect_from seen collected rs in
    if flag (read seen r.carrier_id) then dropped else kept

unfoldable pub collect : List QuoteResult → List QuoteResult
unfolding collect_from
collect results = collect_from [] [] results

-- The first result of a carrier.
unfoldable pub first : String → List QuoteResult → Option QuoteResult
first id [] = none
first id (r ∷ rs) = if same_text r.carrier_id id then some r else first id rs

-- No two results of one carrier.
abbrev pub Distinct : List QuoteResult → Type 0
Distinct [] = Unit
Distinct (r ∷ rs) = (first r.carrier_id rs ≡ none) × Distinct rs

abbrev pub or_else : Option QuoteResult → Option QuoteResult → Option QuoteResult
or_else none y = y
or_else (some r) y = some r

pub first-append :
    (id : String) (xs ys : List QuoteResult)
    → first id (xs ++ ys) ≡ or_else (first id xs) (first id ys)
unfolding first
first-append id [] ys = refl
first-append id (x ∷ xs) ys = ground (arith, first-append id xs ys)

abbrev found : Option QuoteResult → Bool
found none = false
found (some r) = true

-- `seen` is the set of the carriers of `collected`.
abbrev Agrees : Dict Bool → List QuoteResult → Type 0
Agrees seen collected = (id : String) → flag (read seen id) ≡ found (first id collected)

Agrees-write :
    (seen : Dict Bool) (collected : List QuoteResult) (r : QuoteResult)
    → Agrees seen collected
    → Agrees (write seen r.carrier_id true) (collected ++ (r ∷ []))
unfolding first
Agrees-write seen collected r a id =
    ground (arith, a id, read-write seen r.carrier_id id true, first-append id collected (r ∷ []))

first-collect_from :
    (rs : List QuoteResult) (seen : Dict Bool) (collected : List QuoteResult) (id : String)
    → Agrees seen collected
    → first id (collect_from seen collected rs) ≡ or_else (first id collected) (first id rs)
unfolding collect_from first
first-collect_from [] seen collected id a = ground arith
first-collect_from (r ∷ rs) seen collected id a =
    elim (Bool-cases (flag (read seen r.carrier_id))) [
      | inl old ↦
          rw (old, collect_from)
            (ground (
              arith,
              first-collect_from rs seen collected id a,
              a r.carrier_id,
              eq_iff r.carrier_id id,
            ))
      | inr new ↦
          rw (new, collect_from)
            (ground (
              arith,
              first-collect_from rs (write seen r.carrier_id true) (collected ++ (r ∷ [])) id
                  (Agrees-write seen collected r a),
              first-append id collected (r ∷ []),
            ))
    ]

Distinct-concat :
    (xs : List QuoteResult) (r : QuoteResult)
    → Distinct xs
    → first r.carrier_id xs ≡ none
    → Distinct (xs ++ (r ∷ []))
unfolding first
Distinct-concat [] r d h = (refl, tt)
Distinct-concat (x ∷ xs) r d h = ground (
  arith,
  Distinct-concat xs r d.1,
  first-append x.carrier_id xs (r ∷ []),
  eq_iff r.carrier_id x.carrier_id,
  eq_iff x.carrier_id r.carrier_id,
)

collect_from-Distinct :
    (rs : List QuoteResult) (seen : Dict Bool) (collected : List QuoteResult)
    → Agrees seen collected
    → Distinct collected
    → Distinct (collect_from seen collected rs)
unfolding collect_from
collect_from-Distinct [] seen collected a d = d
collect_from-Distinct (r ∷ rs) seen collected a d =
    elim (Bool-cases (flag (read seen r.carrier_id))) [
      | inl old ↦ rw (old, collect_from) (collect_from-Distinct rs seen collected a d)
      | inr new ↦
          rw (new, collect_from)
            (collect_from-Distinct rs (write seen r.carrier_id true) (collected ++ (r ∷ []))
              (Agrees-write seen collected r a)
              (Distinct-concat collected r d (ground (arith, a r.carrier_id))))
    ]

Agrees-empty : Agrees [] []
unfolding first read
Agrees-empty id = refl

pub first-collect : (rs : List QuoteResult) (id : String) → first id (collect rs) ≡ first id rs
unfolding collect first
first-collect rs id = first-collect_from rs [] [] id Agrees-empty

pub collect-Distinct : (rs : List QuoteResult) → Distinct (collect rs)
unfolding collect
collect-Distinct rs = collect_from-Distinct rs [] [] Agrees-empty tt
