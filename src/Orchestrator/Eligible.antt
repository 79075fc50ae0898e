-- ===== src/Orchestrator/Eligible.antt =====
-- `filterEligibleCarriers` of internal/orchestrator/orchestrator.go, and the carriers that
-- `ListActive` of internal/adapter/spanner/carrier_repo.go loads.
use text.Mathlib.Text.{◌==◌ as same_text}
use riskforge.Prelude.{
  ◌≡◌, refl, String, Bool, true, false, not, ◌&&◌, ◌||◌, List, [], ◌∷◌, Option, none, some, arith,
  Dict, read, write, read-write, any, if◌then◌else◌, ◌==◌, inl, inr, ◌⊎◌, All, OneOf, subst,
}
use riskforge.Domain.{CoverageLine, Carrier, CarrierConfig}
use riskforge.Domain.Errors.{Error, wrap}
use riskforge.Breaker.{Breaker, cb_value, state_open}
use riskforge.Orchestrator.Collect.{flag}

-- The set `requested`.
unfoldable pub requested_set : Dict Bool → List CoverageLine → Dict Bool
requested_set requested [] = requested
requested_set requested (l ∷ ls) = requested_set (write requested l true) ls

-- A carrier without a breaker is not skipped.
unfoldable pub is_open : Option Breaker → Bool
is_open none = false
is_open (some b) = cb_value b.state == cb_value state_open

module _ {F : Type 0} where
  unfoldable pub filter_from : Dict Bool → Dict Breaker → List (Carrier F) → List (Carrier F)
  filter_from requested breakers [] = []
  filter_from requested breakers (c ∷ cs) =
      let rest = filter_from requested breakers cs in
      if is_open (read breakers c.id)
      then rest
      else if any (λ cap. flag (read requested cap)) c.capabilities
      then c ∷ rest
      else rest

  unfoldable pub filter_eligible_carriers :
      List (Carrier F) → Dict Breaker → List CoverageLine → List (Carrier F)
  unfolding filter_from requested_set
  filter_eligible_carriers carriers breakers lines =
      filter_from (requested_set [] lines) breakers carriers

  -- One of the carrier's capabilities is one of the lines.
  abbrev pub serves : List CoverageLine → Carrier F → Bool
  serves lines c = any (λ cap. any (λ l. same_text l cap) lines) c.capabilities

  abbrev pub select : (Carrier F → Bool) → List (Carrier F) → List (Carrier F)
  select p [] = []
  select p (c ∷ cs) = let rest = select p cs in if p c then c ∷ rest else rest

flag-requested_set :
    (lines : List CoverageLine) (requested : Dict Bool) (cap : CoverageLine)
    → flag (read (requested_set requested lines) cap)
      ≡ (any (λ l. same_text l cap) lines || flag (read requested cap))
unfolding requested_set
flag-requested_set [] requested cap = refl
flag-requested_set (l ∷ ls) requested cap =
    ground
      (arith, flag-requested_set ls (write requested l true) cap, read-write requested l cap true)

flag-requested :
    (lines : List CoverageLine) (cap : CoverageLine)
    → flag (read (requested_set [] lines) cap) ≡ any (λ l. same_text l cap) lines
unfolding read
flag-requested lines cap = ground (arith, flag-requested_set lines [] cap)

any_ext {ℓ} :
    {A : Type ℓ} (p q : A → Bool) (xs : List A) → ((a : A) → p a ≡ q a) → any p xs ≡ any q xs
any_ext p q [] h = refl
any_ext p q (x ∷ xs) h = ground (arith, h x, any_ext p q xs h)

module _ {F : Type 0} where
  filter_from-select :
      (lines : List CoverageLine) (breakers : Dict Breaker) (cs : List (Carrier F))
      → filter_from (requested_set [] lines) breakers cs
        ≡ select (λ c. not (is_open (read breakers c.id)) && serves lines c) cs
  unfolding filter_from
  filter_from-select lines breakers [] = refl
  filter_from-select lines breakers (c ∷ cs) = ground (
    arith,
    filter_from-select lines breakers cs,
    any_ext (λ cap. flag (read (requested_set [] lines) cap))
        (λ cap. any (λ l. same_text l cap) lines) c.capabilities (flag-requested lines),
  )

  -- The eligible carriers are exactly those of the configuration, in its order, that have one of the
  -- requested lines among their capabilities and whose breaker, if they have one, is not Open.
  pub filter_eligible_carriers-select :
      (carriers : List (Carrier F)) (breakers : Dict Breaker) (lines : List CoverageLine)
      → filter_eligible_carriers carriers breakers lines
        ≡ select (λ c. not (is_open (read breakers c.id)) && serves lines c) carriers
  unfolding filter_eligible_carriers
  filter_eligible_carriers-select carriers breakers lines =
      filter_from-select lines breakers carriers

-- A row of the query of `ListActive`. `config` is the decoded Config column, none when it is NULL or
-- does not decode.
pub record CarrierRow (F : Type 0) : Type 0 where
  pub id : String
  pub name : String
  pub code : String
  pub config : Option (CarrierConfig F)

module _ {F : Type 0} (zero_config : CarrierConfig F) where
  abbrev config_or_zero : Option (CarrierConfig F) → CarrierConfig F
  config_or_zero none = zero_config
  config_or_zero (some c) = c

  unfoldable pub carrier_of_row : CarrierRow F → Carrier F
  carrier_of_row row = record {
    id = row.id;
    code = row.code;
    name = row.name;
    is_active = true;
    capabilities = [];
    config = config_or_zero row.config;
  }

  -- The iteration fails at the first row that cannot be read.
  unfoldable pub list_active : List (Error ⊎ CarrierRow F) → Error ⊎ List (Carrier F)
  unfolding carrier_of_row
  list_active [] = inr []
  list_active (inl e ∷ rows) = inl (wrap "list carriers" e)
  list_active (inr row ∷ rows) = elim (list_active rows) [
    | inl e ↦ inl e
    | inr carriers ↦ inr (carrier_of_row row ∷ carriers)
  ]

  -- Every carrier that `ListActive` returns has no capabilities.
  abbrev pub Bare : List (Carrier F) → Type 0
  Bare cs = All (λ c. c.capabilities ≡ []) cs

  abbrev AllBare : Error ⊎ List (Carrier F) → Type 0
  AllBare (inl e) = Unit
  AllBare (inr cs) = Bare cs

  list_active-Bare : (rows : List (Error ⊎ CarrierRow F)) → AllBare (list_active rows)
  unfolding list_active
  list_active-Bare [] = tt
  list_active-Bare (inl e ∷ rows) = tt
  list_active-Bare (inr row ∷ rows) = ground (arith, list_active-Bare rows)

  filter_from-Bare :
      (cs : List (Carrier F)) (requested : Dict Bool) (breakers : Dict Breaker)
      → Bare cs
      → filter_from requested breakers cs ≡ []
  unfolding filter_from
  filter_from-Bare [] requested breakers h = refl
  filter_from-Bare (c ∷ cs) requested breakers (h, hs) =
      ground (arith, filter_from-Bare cs requested breakers hs)

  -- The query does not read capabilities, so none of the carriers that are loaded from Spanner is
  -- ever eligible, whatever the rows, the breakers and the requested lines.
  pub list_active_never_eligible :
      (rows : List (Error ⊎ CarrierRow F)) (cs : List (Carrier F)) (breakers : Dict Breaker)
      (lines : List CoverageLine)
      → list_active rows ≡ inr cs
      → filter_eligible_carriers cs breakers lines ≡ []
  unfolding filter_eligible_carriers
  list_active_never_eligible rows cs breakers lines h =
      filter_from-Bare cs (requested_set [] lines) breakers
        (subst AllBare h (list_active-Bare rows))

filter_from-OneOf :
    {F : Type 0} (requested : Dict Bool) (breakers : Dict Breaker) (cs : List (Carrier F))
    (c : Carrier F)
    → OneOf c (filter_from requested breakers cs)
    → OneOf c cs
unfolding filter_from
filter_from-OneOf requested breakers [] c m = absurd m
filter_from-OneOf requested breakers (d ∷ cs) c m =
    ground (arith, filter_from-OneOf requested breakers cs c)

-- An eligible carrier is one of the list.
pub eligible-OneOf :
    {F : Type 0} (cs : List (Carrier F)) (breakers : Dict Breaker) (lines : List CoverageLine)
    (c : Carrier F)
    → OneOf c (filter_eligible_carriers cs breakers lines)
    → OneOf c cs
unfolding filter_eligible_carriers
eligible-OneOf cs breakers lines c m = filter_from-OneOf (requested_set [] lines) breakers cs c m
