-- ===== src/Orchestrator/Sorting.antt =====
-- The sort at the end of `fanOut` in internal/orchestrator/orchestrator.go. `slices.SortFunc` is an
-- insertion sort here; the collected results have different carriers.
use Prim.Native.Nat.{gt}
use text.Mathlib.TextEquality.{eq_iff}
use text.Mathlib.Text.{◌==◌ as same_text}
use riskforge.Prelude.{
  ◌≡◌, refl, ap, ◌∙◌, String, List, [], ◌∷◌, none, some, arith, All, ◌⊎◌, inl, inr, if◌then◌else◌,
}
use riskforge.Domain.{QuoteResult}
use riskforge.Orchestrator.Order.{compare_results, ◌⊑◌, ⊑_total, ⊑_trans}
use riskforge.Orchestrator.Collect.{first, Distinct}

unfoldable pub insert_sorted : QuoteResult → List QuoteResult → List QuoteResult
insert_sorted r [] = r ∷ []
insert_sorted r (x ∷ xs) = elim (compare_results r x) [
  | gt ↦ x ∷ insert_sorted r xs
  | _ ↦ r ∷ x ∷ xs
]

unfoldable pub sort_results : List QuoteResult → List QuoteResult
unfolding insert_sorted
sort_results [] = []
sort_results (r ∷ rs) = insert_sorted r (sort_results rs)

abbrev pub IsSorted : List QuoteResult → Type 0
IsSorted [] = Unit
IsSorted (r ∷ rs) = All (λ x. ◌⊑◌ r x) rs × IsSorted rs

All-⊑ :
    (rs : List QuoteResult) (a b : QuoteResult)
    → ◌⊑◌ a b
    → All (λ x. ◌⊑◌ b x) rs
    → All (λ x. ◌⊑◌ a x) rs
All-⊑ [] a b h k = tt
All-⊑ (r ∷ rs) a b h (k, ks) = (⊑_trans a b r h k, All-⊑ rs a b h ks)

abbrev Placed : QuoteResult → QuoteResult → List QuoteResult → Type 0
Placed r x xs =
    ((compare_results r x ≡ gt) × (insert_sorted r (x ∷ xs) ≡ x ∷ insert_sorted r xs))
    ⊎ ((◌⊑◌ r x) × (insert_sorted r (x ∷ xs) ≡ r ∷ x ∷ xs))

insert_sorted-Placed : (r x : QuoteResult) (xs : List QuoteResult) → Placed r x xs
unfolding insert_sorted
insert_sorted-Placed r x xs = ground arith

All-insert_sorted :
    (rs : List QuoteResult) (a r : QuoteResult)
    → ◌⊑◌ a r
    → All (λ x. ◌⊑◌ a x) rs
    → All (λ x. ◌⊑◌ a x) (insert_sorted r rs)
All-insert_sorted [] a r h k = unfold insert_sorted in (h, tt)
All-insert_sorted (x ∷ xs) a r h (k, ks) = elim (insert_sorted-Placed r x xs) [
  | inl (_, e) ↦ rw e (k, All-insert_sorted xs a r h ks)
  | inr (_, e) ↦ rw e (h, (k, ks))
]

insert_sorted-IsSorted :
    (rs : List QuoteResult) (r : QuoteResult) → IsSorted rs → IsSorted (insert_sorted r rs)
insert_sorted-IsSorted [] r s = unfold insert_sorted in (tt, tt)
insert_sorted-IsSorted (x ∷ xs) r (h, s) = elim (insert_sorted-Placed r x xs) [
  | inl (g, e) ↦ rw e (All-insert_sorted xs x r (⊑_total r x g) h, insert_sorted-IsSorted xs r s)
  | inr (k, e) ↦ rw e ((k, All-⊑ xs r x k h), (h, s))
]

pub sort_results-IsSorted : (rs : List QuoteResult) → IsSorted (sort_results rs)
unfolding sort_results
sort_results-IsSorted [] = tt
sort_results-IsSorted (r ∷ rs) =
    insert_sorted-IsSorted (sort_results rs) r (sort_results-IsSorted rs)

-- Inserting a carrier's only result.
first-insert_sorted :
    (xs : List QuoteResult) (r : QuoteResult) (id : String)
    → first r.carrier_id xs ≡ none
    → first id (insert_sorted r xs) ≡ (if same_text r.carrier_id id then some r else first id xs)
unfolding insert_sorted first
first-insert_sorted [] r id h = refl
first-insert_sorted (x ∷ xs) r id h = ground (
  arith,
  first-insert_sorted xs r id,
  eq_iff r.carrier_id id,
  eq_iff x.carrier_id id,
  eq_iff x.carrier_id r.carrier_id,
)

insert_sorted-Distinct :
    (xs : List QuoteResult) (r : QuoteResult)
    → first r.carrier_id xs ≡ none
    → Distinct xs
    → Distinct (insert_sorted r xs)
unfolding first
insert_sorted-Distinct [] r h d = unfold insert_sorted in (refl, tt)
insert_sorted-Distinct (x ∷ xs) r h (k, d) = elim (insert_sorted-Placed r x xs) [
  | inl (_, e) ↦ rw e (
      ground (
        arith,
        first-insert_sorted xs r x.carrier_id,
        insert_sorted-Distinct xs r,
        eq_iff r.carrier_id x.carrier_id,
        eq_iff x.carrier_id r.carrier_id,
      ))
  | inr (_, e) ↦ rw e (h, (k, d))
]

pub sort_results-Distinct :
    (rs : List QuoteResult)
    → Distinct rs
    → Distinct (sort_results rs) × ((id : String) → first id (sort_results rs) ≡ first id rs)
unfolding sort_results first
sort_results-Distinct [] d = (tt, λ id. refl)
sort_results-Distinct (r ∷ rs) (h, d) =
    let ih = sort_results-Distinct rs d in
    (
      insert_sorted-Distinct (sort_results rs) r (ih.1 r.carrier_id ∙ h) ih.0,
      λ id.
          first-insert_sorted (sort_results rs) r id (ih.1 r.carrier_id ∙ h)
          ∙ ap (λ o. if same_text r.carrier_id id then some r else o) (ih.1 id),
    )
