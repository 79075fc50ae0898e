-- ===== src/Spanner/Appetite.antt =====
-- `AppetiteRepo` of internal/adapter/spanner/appetite_repo.go, with the types of
-- internal/domain/appetite.go. A statement is the list of the conditions that its text joins by AND; the
-- rows that Spanner gives for it are a parameter. The JSON of the criteria is a text.
use text.Mathlib.Text.{◌==◌ as same_text}
use riskforge.Prelude.{
  ◌≡◌, ◌↔◌, refl, String, Bool, true, ◌&&◌, ◌||◌, not, List, [], ◌∷◌, ◌++◌, map, Option, none, some,
  ◌⊎◌, inl, inr, arith, if◌then◌else◌, OneOf, OneOf-map, OneOf-map_back, subst, sym, ◌∙◌,
}
use riskforge.Domain.Errors.{Error, wrap}

pub record AppetiteRule (F : Type 0) : Type 0 where
  pub rule_id : String
  pub carrier_id : String
  pub state : String
  pub line_of_business : String
  pub class_code : String
  pub min_premium : F
  pub max_premium : F
  pub is_active : Bool
  pub eligibility_criteria : String

pub record RiskClassification (F : Type 0) : Type 0 where
  pub state : String
  pub line_of_business : String
  pub class_code : String
  pub estimated_premium : F

-- A row of the table; NULL is none.
pub record RuleRow (F : Type 0) : Type 0 where
  pub rule_id : String
  pub carrier_id : String
  pub state : String
  pub line_of_business : String
  pub class_code : Option String
  pub min_premium : Option F
  pub max_premium : Option F
  pub eligibility_criteria : Option String
  pub is_active : Bool

-- The conditions of the statements, with their parameters.
pub data Condition (F : Type 0) : Type 0 where
  active : Condition F
  state_is line_is class_null_or : String → Condition F
  min_null_or_le max_null_or_ge : F → Condition F

module _ {F : Type 0} (le lt : F → F → Bool) (zero : F) where
  -- What SQL means by a condition; a comparison with NULL does not hold.
  abbrev pub holds : Condition F → RuleRow F → Bool
  holds active r = r.is_active
  holds (state_is s) r = same_text r.state s
  holds (line_is l) r = same_text r.line_of_business l
  holds (class_null_or c) r = elim r.class_code [ none ↦ true | some d ↦ same_text d c ]
  holds (min_null_or_le p) r = elim r.min_premium [ none ↦ true | some m ↦ le m p ]
  holds (max_null_or_ge p) r = elim r.max_premium [ none ↦ true | some m ↦ le p m ]

  abbrev pub all_hold : List (Condition F) → RuleRow F → Bool
  all_hold [] r = true
  all_hold (c ∷ cs) r = holds c r && all_hold cs r

  -- The text that `FindMatchingRules` builds.
  unfoldable pub statement : RiskClassification F → List (Condition F)
  statement risk =
      (active ∷ state_is risk.state ∷ line_is risk.line_of_business ∷ [])
      ++ ((if same_text risk.class_code "" then [] else class_null_or risk.class_code ∷ [])
          ++ (if lt zero risk.estimated_premium
              then min_null_or_le risk.estimated_premium
                ∷ max_null_or_ge risk.estimated_premium
                ∷ []
              else []))

  abbrev text_or_empty : Option String → String
  text_or_empty none = ""
  text_or_empty (some s) = s

  abbrev number_or_zero : Option F → F
  number_or_zero none = zero
  number_or_zero (some x) = x

  unfoldable pub rule_of_row : RuleRow F → AppetiteRule F
  rule_of_row r = record {
    rule_id = r.rule_id;
    carrier_id = r.carrier_id;
    state = r.state;
    line_of_business = r.line_of_business;
    class_code = text_or_empty r.class_code;
    min_premium = number_or_zero r.min_premium;
    max_premium = number_or_zero r.max_premium;
    is_active = true;
    eligibility_criteria = text_or_empty r.eligibility_criteria;
  }

  abbrev rules_of : Error ⊎ List (RuleRow F) → Error ⊎ List (AppetiteRule F)
  rules_of (inl e) = inl (wrap "query appetite rules" e)
  rules_of (inr rows) = inr (map rule_of_row rows)

  module _ {W : Type 0} (query : List (Condition F) → W → W × (Error ⊎ List (RuleRow F))) where
    unfoldable pub query_rules : List (Condition F) → W → W × (Error ⊎ List (AppetiteRule F))
    unfolding rule_of_row
    query_rules stmt w = let (w', answer) = query stmt w in (w', rules_of answer)

    unfoldable pub find_matching_rules :
        RiskClassification F → W → W × (Error ⊎ List (AppetiteRule F))
    unfolding query_rules statement
    find_matching_rules risk w = query_rules (statement risk) w

    unfoldable pub list_all : W → W × (Error ⊎ List (AppetiteRule F))
    unfolding query_rules
    list_all w = query_rules (active ∷ []) w

  abbrev or_null : {A : Type 0} → (A → Bool) → Option A → Bool
  or_null p none = true
  or_null p (some a) = p a

  -- The rule fits the risk: it is active and for the state and the line; for the class or for all, if
  -- the risk has a class; and the premium, if one is estimated, lies within the bounds that it has.
  abbrev pub matches : RiskClassification F → RuleRow F → Bool
  matches risk r =
      r.is_active
      && same_text r.state risk.state
      && same_text r.line_of_business risk.line_of_business
      && (same_text risk.class_code "" || or_null (λ c. same_text c risk.class_code) r.class_code)
      && (not (lt zero risk.estimated_premium)
          || (or_null (λ m. le m risk.estimated_premium) r.min_premium
              && or_null (λ m. le risk.estimated_premium m) r.max_premium))

  all_hold-append :
      (cs ds : List (Condition F)) (r : RuleRow F)
      → all_hold (cs ++ ds) r ≡ (all_hold cs r && all_hold ds r)
  all_hold-append [] ds r = refl
  all_hold-append (c ∷ cs) ds r = ground (arith, all_hold-append cs ds r)

  statement-matches :
      (risk : RiskClassification F) (r : RuleRow F) → all_hold (statement risk) r ≡ matches risk r
  unfolding statement
  statement-matches risk r = ground arith

  -- What is assumed of a query without an order: its rows are those of the table that satisfy it.
  abbrev pub Answers :
      {W : Type 0}
      → (List (Condition F) → W → W × (Error ⊎ List (RuleRow F)))
      → (W → List (RuleRow F))
      → Type 0
  Answers {W} query table =
      (stmt : List (Condition F)) (w : W) (rows : List (RuleRow F)) (r : RuleRow F)
      → (query stmt w).1 ≡ inr rows
      → OneOf r rows ↔ (OneOf r (table w) × (all_hold stmt r ≡ true))

  rules_of-inr :
      (answer : Error ⊎ List (RuleRow F)) (rules : List (AppetiteRule F))
      → rules_of answer ≡ inr rules
      → (rows : List (RuleRow F)) × (answer ≡ inr rows) × (rules ≡ map rule_of_row rows)
  rules_of-inr (inl e) rules h = cc
  rules_of-inr (inr rows) rules h = (rows, refl, ground arith)

  -- `FindMatchingRules` gives the rules of the rows of the table that fit the risk, and no others: the
  -- active ones for its state and line, for its class or for all classes if it has a class, and with
  -- bounds that hold its premium if it has one. It is assumed that the query gives the rows that
  -- satisfy its conditions.
  pub find_matching_rules-matches :
      {W : Type 0} (query : List (Condition F) → W → W × (Error ⊎ List (RuleRow F)))
      (table : W → List (RuleRow F))
      → Answers query table
      → (risk : RiskClassification F) (w : W) (rules : List (AppetiteRule F)) (a : AppetiteRule F)
      → (find_matching_rules query risk w).1 ≡ inr rules
      → OneOf a rules
        ↔ ((r : RuleRow F) × OneOf r (table w) × (matches risk r ≡ true) × (a ≡ rule_of_row r))
  unfolding find_matching_rules
  find_matching_rules-matches query table law risk w rules a h =
      let (rows, answered, e) = rules_of-inr (query (statement risk) w).1 rules h in
      (
        λ m.
            let (r, n, f) = OneOf-map_back rule_of_row a rows (subst (OneOf a) e m) in
            let (t, ok) = (law (statement risk) w rows r answered).0 n in
            (r, t, sym (statement-matches risk r) ∙ ok, f),
        λ (r, t, ok, f).
            subst (λ (b : AppetiteRule F). OneOf b rules) (sym f)
              (subst (OneOf (rule_of_row r)) (sym e) (
                OneOf-map rule_of_row r rows
                  ((law (statement risk) w rows r answered).1 (t, statement-matches risk r ∙ ok)))),
      )
