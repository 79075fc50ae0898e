-- ===== src/Handler/Post.antt =====
-- `handlePostQuotes`, `handleOrchError` and `writeError` of internal/handler/http.go. The body is
-- what the JSON decoder made of it. The orchestrator is a function on a state `W` of its own; the
-- clock enters as the duration of the call.
use text.Mathlib.Text.{◌==◌ as same_text}
use riskforge.Prelude.{
  ℕ, ◌≡◌, refl, String, Bool, List, [], ◌∷◌, map, Option, none, some, ◌⊎◌, inl, inr, Option-cases,
  if◌then◌else◌, arith, leb, ◌==◌,
}
use riskforge.Prelude.Int.{ℤ, milliseconds}
use riskforge.Domain.{QuoteRequest, QuoteResult}
use riskforge.Domain.Errors.{Error, err_carrier_timeout, errors_is}
use riskforge.Handler.Validate.{
  QuoteBody, Invalid, validate_quote_request, build_domain_request, IsValid,
  validate_quote_request-IsValid,
}

-- What `dec.Decode` and the body limit make of the request.
pub data Decoded : Type 0 where
  too_large malformed : Decoded
  body : QuoteBody → Decoded

pub data Level : Type 0 where
  info warn error : Level

pub record QuoteItem : Type 0 where
  pub carrier_id : String
  pub carrier_ref : String
  pub premium_cents : ℤ
  pub currency : String
  pub is_hedged : Bool
  pub latency_ms : ℤ

pub data Reason : Type 0 where
  request_too_large invalid_json no_eligible_carriers timed_out internal : Reason
  invalid_request : Invalid → Reason

pub data Answer : Type 0 where
  quotes : (request_id : String) → List QuoteItem → (duration_ms : ℤ) → Answer
  failure : Reason → Answer

-- The response, and the level and request identifier under which an error is logged.
pub record Response : Type 0 where
  pub status : ℕ
  pub answer : Answer
  pub logged : Option (Level × String)

unfoldable pub log_level : ℕ → Level
log_level status = if leb 500 status then error else if status == 504 then warn else info

unfoldable pub write_error : ℕ → String → Reason → Response
unfolding log_level
write_error status request_id reason = record {
  status = status;
  answer = failure reason;
  logged = some (log_level status, request_id);
}

unfoldable pub handle_orch_error : String → Error → Response
unfolding write_error
handle_orch_error request_id e =
    if errors_is e err_carrier_timeout
    then write_error 504 request_id timed_out
    else record { status = 500; answer = failure internal; logged = some (error, request_id) }

unfoldable pub quote_item : QuoteResult → QuoteItem
quote_item r = record {
  carrier_id = r.carrier_id;
  carrier_ref = r.carrier_ref;
  premium_cents = r.premium.amount;
  currency = r.premium.currency;
  is_hedged = r.is_hedged;
  latency_ms = milliseconds r.latency;
}

unfoldable pub quote_response : String → String → ℤ → List QuoteResult → Response
unfolding write_error quote_item
quote_response request_id domain_id duration [] = write_error 422 request_id no_eligible_carriers
quote_response request_id domain_id duration (r ∷ rs) = record {
  status = 200;
  answer = quotes domain_id (map quote_item (r ∷ rs)) duration;
  logged = none;
}

abbrev pub answer_of : String → String → ℤ → Error ⊎ List QuoteResult → Response
answer_of request_id domain_id duration (inl e) = handle_orch_error request_id e
answer_of request_id domain_id duration (inr results) =
    quote_response request_id domain_id duration results

-- The orchestrator on its own state; the result of `GetQuotes` is an error or the list.
abbrev pub Orchestrate : Type 0 → Type 0 → Type 0
Orchestrate F W = QuoteRequest F → W → W × (Error ⊎ List QuoteResult)

abbrev pub domain_request : {F : Type 0} → F → String → QuoteBody → QuoteRequest F
domain_request zero_premium client_id req = record (build_domain_request zero_premium req) {
  client_id = client_id;
}

module _ {F W : Type 0} (zero_premium : F) (orch : Orchestrate F W)
    (header_id client_id : String) where
  -- From the validation on.
  unfoldable pub handle_body : ℤ → QuoteBody → W → W × Response
  unfolding handle_orch_error quote_response
  handle_body duration req w =
      let request_id = if same_text req.request_id "" then header_id else req.request_id in
      elim (validate_quote_request req) [
        | some invalid ↦ (w, write_error 400 request_id (invalid_request invalid))
        | none ↦
            let (w', result) = orch (domain_request zero_premium client_id req) w in
            (w', answer_of request_id req.request_id duration result)
      ]

  unfoldable pub handle_post_quotes : ℤ → Decoded → W → W × Response
  unfolding handle_body
  handle_post_quotes duration too_large w = (w, write_error 400 header_id request_too_large)
  handle_post_quotes duration malformed w = (w, write_error 400 header_id invalid_json)
  handle_post_quotes duration (body req) w = handle_body duration req w

-- The status that the result of the orchestrator leads to.
abbrev pub status_of : Error ⊎ List QuoteResult → ℕ
status_of (inl e) = if errors_is e err_carrier_timeout then 504 else 500
status_of (inr []) = 422
status_of (inr (r ∷ rs)) = 200

-- The answer to a list of quotes.
abbrev pub reply_to : String → ℤ → List QuoteResult → Answer
reply_to domain_id duration [] = failure no_eligible_carriers
reply_to domain_id duration (r ∷ rs) = quotes domain_id (map quote_item (r ∷ rs)) duration

pub answer_of-reply_to :
    (request_id domain_id : String) (duration : ℤ) (results : List QuoteResult)
    → (answer_of request_id domain_id duration (inr results)).answer
      ≡ reply_to domain_id duration results
unfolding quote_response
answer_of-reply_to request_id domain_id duration [] = refl
answer_of-reply_to request_id domain_id duration (r ∷ rs) = refl

abbrev pub Accepted : Decoded → Type 0
Accepted too_large = ⊥
Accepted malformed = ⊥
Accepted (body req) = IsValid req

module _ {F W : Type 0} (zero_premium : F) (orch : Orchestrate F W) (header_id client_id : String)
    (duration : ℤ) where
  rejected_body :
      (req : QuoteBody) (w : W)
      → ¬ IsValid req
      → ((handle_body zero_premium orch header_id client_id duration req w).0 ≡ w)
        × ((handle_body zero_premium orch header_id client_id duration req w).1.status ≡ 400)
  unfolding handle_body
  rejected_body req w h = elim (Option-cases (validate_quote_request req)) [
    | inl e ↦ absurd (h ((validate_quote_request-IsValid req).0 e))
    | inr (invalid, e) ↦ rw (e, handle_body) (refl, refl)
  ]

  -- A request that does not decode to a valid body is answered with status 400, and the orchestrator
  -- is not called.
  pub handle_post_quotes_rejects :
      (d : Decoded) (w : W)
      → ¬ Accepted d
      → ((handle_post_quotes zero_premium orch header_id client_id duration d w).0 ≡ w)
        × ((handle_post_quotes zero_premium orch header_id client_id duration d w).1.status ≡ 400)
  unfolding handle_post_quotes
  handle_post_quotes_rejects too_large w h = (refl, refl)
  handle_post_quotes_rejects malformed w h = (refl, refl)
  handle_post_quotes_rejects (body req) w h = rejected_body req w h

  pub answer_of-status :
      (request_id domain_id : String) (result : Error ⊎ List QuoteResult)
      → (answer_of request_id domain_id duration result).status ≡ status_of result
  unfolding handle_orch_error quote_response
  answer_of-status request_id domain_id (inl e) = ground arith
  answer_of-status request_id domain_id (inr []) = refl
  answer_of-status request_id domain_id (inr (r ∷ rs)) = refl

  -- With a valid body the orchestrator is called once, with the domain request of the body under the
  -- authenticated client, and the status is 504 on a carrier timeout, 500 on any other error, 422 on
  -- an empty list of quotes and 200 on any other list.
  pub handle_post_quotes_accepts :
      (req : QuoteBody) (w : W)
      → IsValid req
      → ((handle_post_quotes zero_premium orch header_id client_id duration (body req) w).0
          ≡ (orch (domain_request zero_premium client_id req) w).0)
        × ((handle_post_quotes zero_premium orch header_id client_id duration (body req) w).1.status
            ≡ status_of (orch (domain_request zero_premium client_id req) w).1)
  unfolding handle_post_quotes
  handle_post_quotes_accepts req w v =
      rw ((validate_quote_request-IsValid req).1 v, handle_body) (refl, answer_of-status _ _ _)

  pub handle_post_quotes-answer_of :
      (req : QuoteBody) (w : W)
      → IsValid req
      → handle_post_quotes zero_premium orch header_id client_id duration (body req) w ≡ (
        (orch (domain_request zero_premium client_id req) w).0,
        answer_of
            (if same_text req.request_id "" then header_id else req.request_id)
            req.request_id
            duration
            (orch (domain_request zero_premium client_id req) w).1,
      )
  unfolding handle_post_quotes
  handle_post_quotes-answer_of req w v =
      rw ((validate_quote_request-IsValid req).1 v, handle_body) refl
