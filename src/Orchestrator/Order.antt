-- ===== src/Orchestrator/Order.antt =====
-- The comparison by which `fanOut` of internal/orchestrator/orchestrator.go sorts, with
-- `cmp.Compare` on int64 values and on strings, and its laws. Strings are compared by code points,
-- which is the order of their UTF-8 bytes.
use Prim.Native.Nat.{compare, Ordering, lt, eq, gt}
use Prim.Native.Char.{code}
use text.Mathlib.TextEquality.{Char-path}
use riskforge.Prelude.{String, ◌+◌, ◌≡◌, ◌≢◌, refl, arith}
use riskforge.Prelude.Int.{ℤ, pos_part, neg_part}
use riskforge.Domain.{QuoteResult}

unfoldable pub compare_text : String → String → Ordering
compare_text String.[] String.[] = eq
compare_text String.[] (String.◌∷◌ d t) = lt
compare_text (String.◌∷◌ c s) String.[] = gt
compare_text (String.◌∷◌ c s) (String.◌∷◌ d t) = elim (compare (code c) (code d)) [
  | lt ↦ lt
  | eq ↦ compare_text s t
  | gt ↦ gt
]

unfoldable pub compare_amount : ℤ → ℤ → Ordering
compare_amount a b = compare (pos_part a + neg_part b) (pos_part b + neg_part a)

-- The function given to `slices.SortFunc`.
unfoldable pub compare_results : QuoteResult → QuoteResult → Ordering
compare_results a b = elim (compare_amount a.premium.amount b.premium.amount) [
  | lt ↦ lt
  | eq ↦ compare_text a.carrier_id b.carrier_id
  | gt ↦ gt
]

abbrev flip : Ordering → Ordering
flip lt = gt
flip eq = eq
flip gt = lt

eq_of_compare_text : (s t : String) → compare_text s t ≡ eq → s ≡ t
unfolding compare_text
eq_of_compare_text String.[] String.[] h = refl
eq_of_compare_text String.[] (String.◌∷◌ d t) h = cc
eq_of_compare_text (String.◌∷◌ c s) String.[] h = cc
eq_of_compare_text (String.◌∷◌ c s) (String.◌∷◌ d t) h =
    ground (arith, Char-path c d, eq_of_compare_text s t)

compare_text-flip : (s t : String) → compare_text t s ≡ flip (compare_text s t)
unfolding compare_text
compare_text-flip String.[] String.[] = refl
compare_text-flip String.[] (String.◌∷◌ d t) = refl
compare_text-flip (String.◌∷◌ c s) String.[] = refl
compare_text-flip (String.◌∷◌ c s) (String.◌∷◌ d t) = ground (arith, compare_text-flip s t)

compare_text_trans :
    (s t u : String) → compare_text s t ≢ gt → compare_text t u ≢ gt → compare_text s u ≢ gt
unfolding compare_text
compare_text_trans String.[] t String.[] h k = λ e. cc
compare_text_trans String.[] t (String.◌∷◌ e u) h k = λ e. cc
compare_text_trans (String.◌∷◌ c s) String.[] u h k = absurd (h refl)
compare_text_trans (String.◌∷◌ c s) (String.◌∷◌ d t) String.[] h k = absurd (k refl)
compare_text_trans (String.◌∷◌ c s) (String.◌∷◌ d t) (String.◌∷◌ e u) h k =
    ground (arith, compare_text_trans s t u)

-- `a` may stand before `b` in a sorted list.
abbrev pub ◌⊑◌ : QuoteResult → QuoteResult → Type 0
◌⊑◌ a b = compare_results a b ≢ gt

pub ⊑_total : (a b : QuoteResult) → compare_results a b ≡ gt → ◌⊑◌ b a
unfolding compare_results compare_amount
⊑_total a b h = ground (arith, compare_text-flip a.carrier_id b.carrier_id)

pub ⊑_trans : (a b c : QuoteResult) → ◌⊑◌ a b → ◌⊑◌ b c → ◌⊑◌ a c
unfolding compare_results compare_amount
⊑_trans a b c h k = ground (arith, compare_text_trans a.carrier_id b.carrier_id c.carrier_id)

-- Results that may stand either way round come from one carrier.
pub ⊑_antisymm : (a b : QuoteResult) → ◌⊑◌ a b → ◌⊑◌ b a → a.carrier_id ≡ b.carrier_id
unfolding compare_results compare_amount
⊑_antisymm a b h k = ground (
  arith,
  compare_text-flip a.carrier_id b.carrier_id,
  eq_of_compare_text a.carrier_id b.carrier_id,
)
