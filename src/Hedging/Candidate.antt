-- ===== src/Hedging/Candidate.antt =====
-- `selectHedgeCandidate` of internal/orchestrator/hedging.go. `cb_state` is what `c.cbState()` returns
-- when the loop asks for it. Floats enter by their comparisons.
use mathlib.Core.Bool.{false≢true}
use text.Mathlib.Text.{◌==◌ as same_text}
use riskforge.Prelude.{
  ◌≡◌, refl, ap, sym, subst, ◌∙◌, ◌⊎◌, inl, inr, String, Bool, true, false, not, ◌&&◌, ◌||◌, List,
  [], ◌∷◌, Option, none, some, arith, All, ◌==◌, Bool-cases, if◌then◌else◌,
}
use riskforge.Prelude.Int.{ltb_ℤ}
use riskforge.Prelude.Float.{FloatOrder}
use riskforge.Domain.{Carrier}
use riskforge.Breaker.{CbState, cb_value, state_open}

pub record HedgeCarrier (F : Type 0) : Type 0 where
  pub carrier : Carrier F
  pub p95_ms : F
  pub cb_state : CbState

and_rest : (p q : Bool) → p ≡ true → (p && q) ≡ false → q ≡ false
and_rest p q h k = ground arith

and_right : (p q : Bool) → (p && q) ≡ true → q ≡ true
and_right p q h = ground arith

module _ {F : Type 0} (order : FloatOrder F) where
  open order use {lt, same, lt_irrefl, lt_trans, same_lt, lt_same, same_trans}

  -- The two tests by which a carrier replaces the best one so far.
  abbrev pub better : HedgeCarrier F → HedgeCarrier F → Bool
  better c best =
      lt c.p95_ms best.p95_ms
      || (same c.p95_ms best.p95_ms && ltb_ℤ c.carrier.config.priority best.carrier.config.priority)

  unfoldable pub consider :
      String → Option (HedgeCarrier F) → HedgeCarrier F → Option (HedgeCarrier F)
  consider exclude best c =
      if same_text c.carrier.id exclude
      then best
      else if cb_value c.cb_state == cb_value state_open
      then best
      else elim best [
        | none ↦ some c
        | some b ↦
            if lt c.p95_ms b.p95_ms
            then some c
            else if same c.p95_ms b.p95_ms
                && ltb_ℤ c.carrier.config.priority b.carrier.config.priority
            then some c
            else some b
      ]

  unfoldable pub select_from :
      String → Option (HedgeCarrier F) → List (HedgeCarrier F) → Option (HedgeCarrier F)
  unfolding consider
  select_from exclude best [] = best
  select_from exclude best (c ∷ cs) = select_from exclude (consider exclude best c) cs

  unfoldable pub select_hedge_candidate : String → List (HedgeCarrier F) → Option (HedgeCarrier F)
  unfolding select_from
  select_hedge_candidate exclude eligible = select_from exclude none eligible

  -- Not the slow carrier itself, and not Open.
  abbrev pub is_candidate : String → HedgeCarrier F → Bool
  is_candidate exclude c =
      not (same_text c.carrier.id exclude) && not (cb_value c.cb_state == cb_value state_open)

  abbrev pub Among : HedgeCarrier F → List (HedgeCarrier F) → Type 0
  Among c [] = ⊥
  Among c (x ∷ xs) = (c ≡ x) ⊎ Among c xs

  abbrev pub Unbeaten : String → HedgeCarrier F → List (HedgeCarrier F) → Type 0
  Unbeaten exclude b cs = All (λ c. is_candidate exclude c ≡ true → better c b ≡ false) cs

  -- The result is a candidate of the list that no candidate of the list beats, or there is none and
  -- the list has no candidate.
  abbrev pub IsBest : String → List (HedgeCarrier F) → Option (HedgeCarrier F) → Type 0
  IsBest exclude cs none = All (λ c. is_candidate exclude c ≡ false) cs
  IsBest exclude cs (some b) = Among b cs × (is_candidate exclude b ≡ true) × Unbeaten exclude b cs

  better_trans :
      (a b c : HedgeCarrier F) → better a b ≡ true → better b c ≡ true → better a c ≡ true
  better_trans a b c h k = ground (
    arith,
    lt_trans a.p95_ms b.p95_ms c.p95_ms,
    same_lt a.p95_ms b.p95_ms c.p95_ms,
    lt_same a.p95_ms b.p95_ms c.p95_ms,
    same_trans a.p95_ms b.p95_ms c.p95_ms,
  )

  better_irrefl : (a : HedgeCarrier F) → better a a ≡ false
  better_irrefl a = ground (arith, lt_irrefl a.p95_ms)

  not_better_below :
      (b c b' : HedgeCarrier F) → better c b ≡ false → better b' b ≡ true → better c b' ≡ false
  not_better_below b c b' h k = elim (Bool-cases (better c b')) [
    | inl e ↦ absurd (false≢true (sym h ∙ better_trans c b' b e k))
    | inr e ↦ e
  ]

  module _ (exclude : String) where
    -- How the loop goes on from the best carrier `b` to the final one `b'`.
    record Improves (b : HedgeCarrier F) (cs : List (HedgeCarrier F)) (b' : HedgeCarrier F)
        : Type 0 where
      from : (b' ≡ b) ⊎ (Among b' cs × (better b' b ≡ true))
      good : is_candidate exclude b' ≡ true
      unbeaten : Unbeaten exclude b' cs

    consider_skip :
        (b c : HedgeCarrier F)
        → ((is_candidate exclude c && better c b) ≡ false)
        → consider exclude (some b) c ≡ some b
    unfolding consider
    consider_skip b c h = ground arith

    consider_take :
        (b c : HedgeCarrier F)
        → ((is_candidate exclude c && better c b) ≡ true)
        → consider exclude (some b) c ≡ some c
    unfolding consider
    consider_take b c h = ground arith

    skip-Improves :
        (b c b' : HedgeCarrier F) (cs : List (HedgeCarrier F))
        → ((is_candidate exclude c && better c b) ≡ false)
        → Improves b cs b'
        → Improves b (c ∷ cs) b'
    skip-Improves b c b' cs h v = record {
      from = elim v.from [ inl e ↦ inl e | inr (m, k) ↦ inr (inr m, k) ];
      good = v.good;
      unbeaten = (
        λ g. elim v.from [
          | inl e ↦ rw e (and_rest _ _ g h)
          | inr (m, k) ↦ not_better_below b c b' (and_rest _ _ g h) k
        ],
        v.unbeaten,
      );
    }

    not_beaten_by_start :
        (c b' : HedgeCarrier F) (cs : List (HedgeCarrier F))
        → Improves c cs b'
        → better c b' ≡ false
    not_beaten_by_start c b' cs v = elim v.from [
      | inl e ↦ rw e (better_irrefl c)
      | inr (m, k) ↦ not_better_below c c b' (better_irrefl c) k
    ]

    take-Improves :
        (b c b' : HedgeCarrier F) (cs : List (HedgeCarrier F))
        → ((is_candidate exclude c && better c b) ≡ true)
        → Improves c cs b'
        → Improves b (c ∷ cs) b'
    take-Improves b c b' cs h v = record {
      from = elim v.from [
        | inl e ↦ inr (inl e, rw e (and_right _ _ h))
        | inr (m, k) ↦ inr (inr m, better_trans b' c b k (and_right _ _ h))
      ];
      good = v.good;
      unbeaten = (λ g. not_beaten_by_start c b' cs v, v.unbeaten);
    }

    select_from-Improves :
        (cs : List (HedgeCarrier F)) (b : HedgeCarrier F)
        → is_candidate exclude b ≡ true
        → (b' : HedgeCarrier F) × (select_from exclude (some b) cs ≡ some b') × Improves b cs b'
    unfolding select_from
    select_from-Improves [] b g = (b, refl, record { from = inl refl; good = g; unbeaten = tt })
    select_from-Improves (c ∷ cs) b g = elim (Bool-cases (is_candidate exclude c && better c b)) [
      | inl h ↦
          let (b', e, v) = select_from-Improves cs c (ground arith) in
          (
            b',
            ap (λ o. select_from exclude o cs) (consider_take b c h) ∙ e,
            take-Improves b c b' cs h v,
          )
      | inr h ↦
          let (b', e, v) = select_from-Improves cs b g in
          (
            b',
            ap (λ o. select_from exclude o cs) (consider_skip b c h) ∙ e,
            skip-Improves b c b' cs h v,
          )
    ]

    consider-none_skip :
        (c : HedgeCarrier F) → is_candidate exclude c ≡ false → consider exclude none c ≡ none
    unfolding consider
    consider-none_skip c h = ground arith

    consider-none_take :
        (c : HedgeCarrier F) → is_candidate exclude c ≡ true → consider exclude none c ≡ some c
    unfolding consider
    consider-none_take c h = ground arith

    cons-IsBest :
        (c : HedgeCarrier F) (cs : List (HedgeCarrier F)) (o : Option (HedgeCarrier F))
        → is_candidate exclude c ≡ false
        → IsBest exclude cs o
        → IsBest exclude (c ∷ cs) o
    cons-IsBest c cs none h v = (h, v)
    cons-IsBest c cs (some b) h (m, g, u) = (inr m, g, (λ k. absurd (false≢true (sym h ∙ k)), u))

    start-IsBest :
        (c b' : HedgeCarrier F) (cs : List (HedgeCarrier F))
        → Improves c cs b'
        → IsBest exclude (c ∷ cs) (some b')
    start-IsBest c b' cs v = (
      elim v.from [ inl e ↦ inl e | inr (m, k) ↦ inr m ],
      v.good,
      (λ g. not_beaten_by_start c b' cs v, v.unbeaten),
    )

    select_none-IsBest :
        (cs : List (HedgeCarrier F)) → IsBest exclude cs (select_from exclude none cs)
    unfolding select_from
    select_none-IsBest [] = tt
    select_none-IsBest (c ∷ cs) = elim (Bool-cases (is_candidate exclude c)) [
      | inl g ↦
          let (b', e, v) = select_from-Improves cs c g in
          subst (IsBest exclude (c ∷ cs))
            (sym (ap (λ o. select_from exclude o cs) (consider-none_take c g) ∙ e))
            (start-IsBest c b' cs v)
      | inr h ↦
          subst (IsBest exclude (c ∷ cs))
            (sym (ap (λ o. select_from exclude o cs) (consider-none_skip c h)))
            (cons-IsBest c cs (select_from exclude none cs) h (select_none-IsBest cs))
    ]

  -- The chosen carrier is one of the list, is not the slow carrier and is not Open, and no other such
  -- carrier of the list has a lower p95, or the same p95 and a lower priority; none is chosen exactly
  -- when the list has no such carrier. The comparisons of floats have the laws of FloatOrder.
  pub select_hedge_candidate-IsBest :
      (exclude : String) (eligible : List (HedgeCarrier F))
      → IsBest exclude eligible (select_hedge_candidate exclude eligible)
  unfolding select_hedge_candidate
  select_hedge_candidate-IsBest exclude eligible = select_none-IsBest exclude eligible
