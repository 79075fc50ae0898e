-- ===== src/Handler/Validate.antt =====
-- `validateQuoteRequest` and `buildDomainRequest` of internal/handler/http.go. An error is a
-- constructor with the values that its message prints.
use Prim.Native.Char.{code}
use Prim.Native.String.{len}
use text.Mathlib.Text.{◌==◌ as same_text}
use text.Mathlib.TextEquality.{eq_iff}
use riskforge.Prelude.{
  ℕ, ◌≤◌, ◌≡◌, ◌≢◌, ◌↔◌, ◌⊎◌, refl, String, Bool, true, false, ◌&&◌, ◌||◌, List, [], ◌∷◌, Option,
  none, some, arith, All, ltb, if◌then◌else◌,
}
use riskforge.Prelude.Int.{ℤ, pos, negsuc, ltb_ℤ, leb_ℤ, times_million}
use riskforge.Domain.{
  coverage_line_auto, coverage_line_homeowners, coverage_line_umbrella, QuoteRequest,
}

-- The inbound JSON schema `quoteRequest`.
pub record QuoteBody : Type 0 where
  pub request_id : String
  pub coverage_lines : List String
  pub timeout_ms : ℤ

abbrev pub default_timeout_ms : ℤ
default_timeout_ms = pos 5_000

abbrev pub min_timeout_ms : ℤ
min_timeout_ms = pos 100

abbrev pub max_timeout_ms : ℤ
max_timeout_ms = pos 30_000

abbrev pub max_request_id_len : ℕ
max_request_id_len = 256

pub data Invalid : Type 0 where
  request_id_required request_id_too_long invalid_characters no_coverage_lines : Invalid
  unknown_coverage_line : String → Invalid
  negative_timeout timeout_too_small timeout_too_large : ℤ → Invalid

-- The loop over the characters of the request identifier.
unfoldable pub has_invalid_character : String → Bool
has_invalid_character String.[] = false
has_invalid_character (String.◌∷◌ c s) =
    ltb (code c) 0x20 || ltb 0x7e (code c) || has_invalid_character s

unfoldable pub is_valid_coverage_line : String → Bool
is_valid_coverage_line line =
    same_text line coverage_line_auto
    || same_text line coverage_line_homeowners
    || same_text line coverage_line_umbrella

-- The loop over the coverage lines: the first unknown one.
unfoldable pub unknown_line : List String → Option String
unknown_line [] = none
unknown_line (l ∷ ls) =
    let rest = unknown_line ls in if is_valid_coverage_line l then rest else some l

abbrev is_empty : List String → Bool
is_empty [] = true
is_empty (l ∷ ls) = false

unfoldable pub validate_timeout : ℤ → Option Invalid
validate_timeout t =
    if ltb_ℤ t (pos 0)
    then some (negative_timeout t)
    else if ltb_ℤ (pos 0) t && ltb_ℤ t min_timeout_ms
    then some (timeout_too_small t)
    else if ltb_ℤ max_timeout_ms t
    then some (timeout_too_large t)
    else none

-- `nil` is none.
unfoldable pub validate_quote_request : QuoteBody → Option Invalid
validate_quote_request req =
    if same_text req.request_id ""
    then some request_id_required
    else if ltb max_request_id_len (len req.request_id)
    then some request_id_too_long
    else if has_invalid_character req.request_id
    then some invalid_characters
    else if is_empty req.coverage_lines
    then some no_coverage_lines
    else elim (unknown_line req.coverage_lines) [
      | some l ↦ some (unknown_coverage_line l)
      | none ↦ validate_timeout req.timeout_ms
    ]

module _ {F : Type 0} (zero_premium : F) where
  -- Fields that the literal does not name have their zero value.
  unfoldable pub build_domain_request : QuoteBody → QuoteRequest F
  build_domain_request req = record {
    request_id = req.request_id;
    client_id = "";
    coverage_lines = req.coverage_lines;
    state = "";
    class_code = "";
    estimated_premium = zero_premium;
    timeout =
        times_million (if leb_ℤ req.timeout_ms (pos 0) then default_timeout_ms else req.timeout_ms);
  }

abbrev pub IsPrintable : String → Type 0
IsPrintable String.[] = Unit
IsPrintable (String.◌∷◌ c s) = ((0x20 ≤ code c) × (code c ≤ 0x7e)) × IsPrintable s

abbrev pub IsLine : String → Type 0
IsLine l = (l ≡ "auto") ⊎ (l ≡ "homeowners") ⊎ (l ≡ "umbrella")

-- No timeout, or one from 100 to 30000 milliseconds.
abbrev pub IsTimeout : ℤ → Type 0
IsTimeout (pos n) = (n ≡ 0) ⊎ ((100 ≤ n) × (n ≤ 30_000))
IsTimeout (negsuc n) = ⊥

pub record IsValid (req : QuoteBody) : Type 0 where
  pub named : req.request_id ≢ ""
  pub short : len req.request_id ≤ 256
  pub printable : IsPrintable req.request_id
  pub lines : req.coverage_lines ≢ []
  pub known : All IsLine req.coverage_lines
  pub timely : IsTimeout req.timeout_ms

has_invalid_character-IsPrintable : (s : String) → (has_invalid_character s ≡ false) ↔ IsPrintable s
unfolding has_invalid_character
has_invalid_character-IsPrintable String.[] = ((λ h. tt), (λ h. refl))
has_invalid_character-IsPrintable (String.◌∷◌ c s) = (
  λ h. (ground arith, (has_invalid_character-IsPrintable s).0 (ground arith)),
  λ h. ground (arith, (has_invalid_character-IsPrintable s).1 h.1),
)

is_valid_coverage_line-IsLine : (l : String) → (is_valid_coverage_line l ≡ true) ↔ IsLine l
unfolding is_valid_coverage_line
is_valid_coverage_line-IsLine l =
    ground (arith, eq_iff l "auto", eq_iff l "homeowners", eq_iff l "umbrella")

unknown_line-IsLine : (ls : List String) → (unknown_line ls ≡ none) ↔ All IsLine ls
unfolding unknown_line
unknown_line-IsLine [] = ((λ h. tt), (λ h. refl))
unknown_line-IsLine (l ∷ ls) =
    ground (arith, is_valid_coverage_line-IsLine l, unknown_line-IsLine ls)

validate_timeout-IsTimeout : (t : ℤ) → (validate_timeout t ≡ none) ↔ IsTimeout t
unfolding validate_timeout
validate_timeout-IsTimeout (pos n) = ground arith
validate_timeout-IsTimeout (negsuc n) = ground arith

-- A request passes validation exactly when it is valid: it has a request identifier of at most 256
-- bytes, all printable ASCII, it has coverage lines, all of them known, and its timeout is 0 or from
-- 100 to 30000 milliseconds.
pub validate_quote_request-IsValid :
    (req : QuoteBody) → (validate_quote_request req ≡ none) ↔ IsValid req
unfolding validate_quote_request
validate_quote_request-IsValid req = ground (
  arith,
  eq_iff req.request_id "",
  has_invalid_character-IsPrintable req.request_id,
  unknown_line-IsLine req.coverage_lines,
  validate_timeout-IsTimeout req.timeout_ms,
)

abbrev pub InWindow : ℤ → Type 0
InWindow (pos n) = (100_000_000 ≤ n) × (n ≤ 30_000_000_000)
InWindow (negsuc n) = ⊥

timeout-InWindow :
    (t : ℤ)
    → IsTimeout t
    → InWindow (times_million (if leb_ℤ t (pos 0) then default_timeout_ms else t))
timeout-InWindow (pos n) h = ground arith
timeout-InWindow (negsuc n) h = absurd h

-- The domain request of a body that passes validation keeps the identifier and the lines, names no
-- client and no appetite filter, and has a timeout from 100 milliseconds to 30 seconds.
pub build_domain_request-InWindow :
    {F : Type 0} (zero_premium : F) (req : QuoteBody)
    → validate_quote_request req ≡ none
    → (let q = build_domain_request zero_premium req in
        (q.request_id ≡ req.request_id)
        × (q.coverage_lines ≡ req.coverage_lines)
        × (q.client_id ≡ "")
        × (q.state ≡ "")
        × (q.class_code ≡ "")
        × (q.estimated_premium ≡ zero_premium)
        × InWindow q.timeout)
unfolding build_domain_request
build_domain_request-InWindow zero_premium req h = (
  refl,
  refl,
  refl,
  refl,
  refl,
  refl,
  timeout-InWindow req.timeout_ms ((validate_quote_request-IsValid req).0 h).timely,
)
