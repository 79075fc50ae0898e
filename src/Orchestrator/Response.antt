-- ===== src/Orchestrator/Response.antt =====
-- What `fanOut` of internal/orchestrator/orchestrator.go returns for the results that arrived, in the
-- order of their arrival: the collected results, sorted.
use text.Mathlib.Text.{◌==◌ as same_text}
use text.Mathlib.TextEquality.{eq_iff}
use text.Mathlib.TextPositions.{eq_refl}
use riskforge.Prelude.{
  ◌↔◌, ◌≡◌, refl, sym, ap, subst, ◌∙◌, String, false, List, [], ◌∷◌, none, some, arith, All, ◌⊎◌,
  inl, inr, Bool-cases, OneOf,
}
use riskforge.Domain.{QuoteResult}
use riskforge.Orchestrator.Order.{◌⊑◌, ⊑_antisymm}
use riskforge.Orchestrator.Collect.{collect, first, Distinct, first-collect, collect-Distinct}
use riskforge.Orchestrator.Sorting.{
  sort_results, IsSorted, sort_results-IsSorted, sort_results-Distinct,
}

unfoldable pub respond : List QuoteResult → List QuoteResult
respond arrived = sort_results (collect arrived)

first-⊑ :
    (ys : List QuoteResult) (y x : QuoteResult)
    → All (λ z. ◌⊑◌ y z) ys
    → first x.carrier_id ys ≡ some x
    → ◌⊑◌ y x
unfolding first
first-⊑ [] y x h e = cc
first-⊑ (z ∷ zs) y x (h, hs) e = elim (Bool-cases (same_text z.carrier_id x.carrier_id)) [
  | inl same ↦ subst (λ q. ◌⊑◌ y q) (ground arith) h
  | inr other ↦ first-⊑ zs y x hs (ground arith)
]

head_or_below :
    (ys : List QuoteResult) (y x : QuoteResult)
    → All (λ z. ◌⊑◌ y z) ys
    → first x.carrier_id (y ∷ ys) ≡ some x
    → (y ≡ x) ⊎ ((same_text y.carrier_id x.carrier_id ≡ false) × ◌⊑◌ y x)
unfolding first
head_or_below ys y x h e = elim (Bool-cases (same_text y.carrier_id x.carrier_id)) [
  | inl same ↦ inl (ground arith)
  | inr other ↦ inr (other, first-⊑ ys y x h (ground arith))
]

first_self : (x : QuoteResult) (xs : List QuoteResult) → first x.carrier_id (x ∷ xs) ≡ some x
unfolding first
first_self x xs = rw (eq_refl x.carrier_id) refl

first_nil : (id : String) → first id [] ≡ none
unfolding first
first_nil id = refl

same_head :
    (x y : QuoteResult) (xs ys : List QuoteResult)
    → All (λ z. ◌⊑◌ x z) xs
    → All (λ z. ◌⊑◌ y z) ys
    → first x.carrier_id (y ∷ ys) ≡ some x
    → first y.carrier_id (x ∷ xs) ≡ some y
    → x ≡ y
same_head x y xs ys hx hy ex ey = ground (
  arith,
  head_or_below ys y x hy ex,
  head_or_below xs x y hx ey,
  ⊑_antisymm x y,
  eq_iff x.carrier_id y.carrier_id,
)

same_tail :
    (x : QuoteResult) (xs ys : List QuoteResult)
    → first x.carrier_id xs ≡ none
    → first x.carrier_id ys ≡ none
    → (id : String) → first id (x ∷ xs) ≡ first id (x ∷ ys)
    → first id xs ≡ first id ys
unfolding first
same_tail x xs ys hx hy id h = ground (arith, eq_iff x.carrier_id id)

-- Two sorted lists without two results of one carrier are equal if they have the same result for each
-- carrier.
pub sorted_unique :
    (xs ys : List QuoteResult)
    → IsSorted xs
    → IsSorted ys
    → Distinct xs
    → Distinct ys
    → ((id : String) → first id xs ≡ first id ys)
    → xs ≡ ys
sorted_unique [] [] sx sy dx dy h = refl
sorted_unique [] (y ∷ ys) sx sy dx dy h =
    cc (h y.carrier_id, first_self y ys, first_nil y.carrier_id)
sorted_unique (x ∷ xs) [] sx sy dx dy h =
    cc (h x.carrier_id, first_self x xs, first_nil x.carrier_id)
sorted_unique (x ∷ xs) (y ∷ ys) (sx, sxs) (sy, sys) (dx, dxs) (dy, dys) h =
    let e : x ≡ y =
      same_head x y xs ys sx sy (sym (h x.carrier_id) ∙ first_self x xs)
        (h y.carrier_id ∙ first_self y ys) in
    let below : first x.carrier_id ys ≡ none =
      ap (λ (q : QuoteResult). first q.carrier_id ys) e ∙ dy in
    let tails : (id : String) → first id xs ≡ first id ys =
      λ id. same_tail x xs ys dx below id (h id ∙ ap (λ q. first id (q ∷ ys)) (sym e)) in
    ap (λ q. q ∷ xs) e ∙ ap (λ zs. y ∷ zs) (sorted_unique xs ys sxs sys dxs dys tails)

-- What is returned: sorted by premium and carrier, at most one result of each carrier, and for every
-- carrier the first of its results that arrived (none when none arrived).
pub record IsResponse (arrived answer : List QuoteResult) : Type 0 where
  pub sorted : IsSorted answer
  pub distinct : Distinct answer
  pub firsts : (id : String) → first id answer ≡ first id arrived

respond-IsResponse : (arrived : List QuoteResult) → IsResponse arrived (respond arrived)
unfolding respond
respond-IsResponse arrived =
    let (d, f) = sort_results-Distinct (collect arrived) (collect-Distinct arrived) in
    record {
      sorted = sort_results-IsSorted (collect arrived);
      distinct = d;
      firsts = λ id. f id ∙ first-collect arrived id;
    }

-- The list that is returned is the only one that is sorted by premium and then carrier, has at most
-- one result of each carrier, and has for every carrier the first of its results that arrived and
-- none if none arrived; so the method of sorting does not matter.
pub respond_characterised :
    (arrived answer : List QuoteResult) → IsResponse arrived answer ↔ (answer ≡ respond arrived)
respond_characterised arrived answer =
    let r = respond-IsResponse arrived in
    (
      λ v.
          sorted_unique answer (respond arrived) v.sorted r.sorted v.distinct r.distinct
            (λ id. v.firsts id ∙ sym (r.firsts id)),
      λ e. subst (IsResponse arrived) (sym e) r,
    )

-- The order in which the carriers answer does not matter: two arrivals in which every carrier has the
-- same first result give the same list.
pub respond_order :
    (xs ys : List QuoteResult)
    → ((id : String) → first id xs ≡ first id ys)
    → respond xs ≡ respond ys
respond_order xs ys h =
    let rx = respond-IsResponse xs in
    (respond_characterised ys (respond xs)).0
      (record { sorted = rx.sorted; distinct = rx.distinct; firsts = λ id. rx.firsts id ∙ h id })

-- What `first` finds is one of the list.
pub first-OneOf :
    (cid : String) (qs : List QuoteResult) (q : QuoteResult)
    → first cid qs ≡ some q
    → OneOf q qs × (q.carrier_id ≡ cid)
unfolding first
first-OneOf cid [] q h = cc
first-OneOf cid (x ∷ qs) q h = elim (Bool-cases (same_text x.carrier_id cid)) [
  | inl e ↦ (inl (ground arith), ground (arith, eq_iff x.carrier_id cid))
  | inr e ↦ let (m, c) = first-OneOf cid qs q (ground arith) in (inr m, c)
]

first-some :
    (xs : List QuoteResult) (q : QuoteResult)
    → Distinct xs
    → OneOf q xs
    → first q.carrier_id xs ≡ some q
unfolding first
first-some [] q d m = absurd m
first-some (x ∷ xs) q (no_other, d) (inl e) =
    ground (arith, e, ap (λ (r : QuoteResult). r.carrier_id) e, eq_iff x.carrier_id q.carrier_id)
first-some (x ∷ xs) q (no_other, d) (inr m) =
    ground (arith, first-some xs q d m, eq_iff x.carrier_id q.carrier_id, no_other)

-- A result of the answer has arrived.
pub respond-OneOf :
    (arrived : List QuoteResult) (q : QuoteResult) → OneOf q (respond arrived) → OneOf q arrived
respond-OneOf arrived q m =
    let v = respond-IsResponse arrived in
    (first-OneOf q.carrier_id arrived q
      (sym (v.firsts q.carrier_id) ∙ first-some (respond arrived) q v.distinct m)).0
