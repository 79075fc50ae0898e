-- ===== src/Handler/Tests.antt =====
-- The theorems on the handler at concrete requests, with an orchestrator that counts its calls.
use riskforge.Prelude.{ℕ, ◌+◌, ◌≡◌, ◌↔◌, refl, [], ◌∷◌, some, none, inl}
use riskforge.Prelude.Int.{pos}
use riskforge.Domain.Errors.{sentinel, wrap, err_carrier_timeout, errors_is}
use riskforge.Handler.Validate.{
  QuoteBody, timeout_too_small, validate_quote_request, IsValid, is_valid_coverage_line,
  has_invalid_character, unknown_line, validate_timeout, validate_quote_request-IsValid,
}
use riskforge.Handler.Post.{
  body, Orchestrate, handle_body, handle_post_quotes, handle_orch_error, write_error, timed_out,
}

abbrev good : QuoteBody
good = record {
  request_id = "req-1";
  coverage_lines = "auto" ∷ "umbrella" ∷ [];
  timeout_ms = pos 250;
}

abbrev hasty : QuoteBody
hasty = record { request_id = "req-2"; coverage_lines = "auto" ∷ []; timeout_ms = pos 99 }

hasty_rejected : validate_quote_request hasty ≡ some (timeout_too_small (pos 99))
unfolding validate_quote_request has_invalid_character unknown_line is_valid_coverage_line
    validate_timeout
hasty_rejected = refl

good_accepted : validate_quote_request good ≡ none
unfolding validate_quote_request has_invalid_character unknown_line is_valid_coverage_line
    validate_timeout
good_accepted = refl

good-IsValid : IsValid good
good-IsValid = (validate_quote_request-IsValid good).0 good_accepted

validate_quote_request-IsValid_example : (validate_quote_request good ≡ none) ↔ IsValid good
validate_quote_request-IsValid_example = validate_quote_request-IsValid good

-- Every call times out.
abbrev slow : Orchestrate ℕ ℕ
slow req n = (n + 1, inl (wrap "quotes" (sentinel err_carrier_timeout)))

-- The answer to a timeout is logged as an error, not as a warning.
timeout_logged :
    handle_post_quotes 0 slow "h-1" "k1" (pos 0) (body good) 0
    ≡ (1, write_error 504 "req-1" timed_out)
unfolding handle_post_quotes handle_body handle_orch_error validate_quote_request
    has_invalid_character unknown_line is_valid_coverage_line validate_timeout errors_is
timeout_logged = refl
