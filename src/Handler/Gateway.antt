-- ===== src/Handler/Gateway.antt =====
-- `handlePostQuotes` of internal/handler/http.go over `GetQuotes` of
-- internal/orchestrator/orchestrator.go.
use riskforge.Prelude.{
  ℕ, ◌≡◌, refl, sym, ap, subst, ◌∙◌, String, List, [], ◌∷◌, Option, none, some, ◌⊎◌, inl, inr,
  Option-cases, Dict,
}
use riskforge.Prelude.Int.{ℤ}
use riskforge.Domain.{QuoteResult, Carrier}
use riskforge.Breaker.{Breaker}
use riskforge.Orchestrator.Quotes.{QuoteRepository, Gather, get_quotes, get_quotes-quotes_of}
use riskforge.Handler.Validate.{
  QuoteBody, Invalid, validate_quote_request, IsValid, validate_quote_request-IsValid,
}
use riskforge.Handler.Post.{
  Decoded, too_large, malformed, body, domain_request, handle_post_quotes, status_of, Response,
  handle_post_quotes_rejects, handle_post_quotes_accepts,
}

abbrev pub IsStatus : ℕ → Type 0
IsStatus n = (n ≡ 200) ⊎ (n ≡ 400) ⊎ (n ≡ 422)

not_none : (o : Option Invalid) (i : Invalid) → o ≡ some i → o ≡ none → ⊥
not_none o i h k = cc (h, k)

status_of-IsStatus : (qs : List QuoteResult) → IsStatus (status_of (inr qs))
status_of-IsStatus [] = inr (inr refl)
status_of-IsStatus (q ∷ qs) = inl refl

module _ {F W : Type 0} (repo : Option (QuoteRepository W)) (gather : Gather F W)
    (carriers : List (Carrier F)) (breakers : Dict Breaker) (zero_premium : F)
    (header_id client_id : String) (duration : ℤ) where
  abbrev pub gateway : Decoded → W → W × Response
  gateway d w =
      handle_post_quotes zero_premium (get_quotes repo gather carriers breakers) header_id client_id
        duration d w

  rejected_status :
      (d : Decoded) (w : W) → (gateway d w).1.status ≡ 400 → IsStatus (gateway d w).1.status
  rejected_status d w e = inr (inl e)

  accepted_status :
      (req : QuoteBody) (w : W) → IsValid req → IsStatus (gateway (body req) w).1.status
  accepted_status req w v =
      subst IsStatus
        (sym (
          (handle_post_quotes_accepts zero_premium (get_quotes repo gather carriers breakers)
            header_id client_id duration req w v).1
          ∙ ap status_of (
              get_quotes-quotes_of repo gather carriers breakers
                (domain_request zero_premium client_id req) w)))
        (status_of-IsStatus _)

  -- The gateway answers every request, whatever fails or runs out of time behind it, with status 200, 400
  -- or 422; 500 and 504 do not occur.
  pub gateway-IsStatus : (d : Decoded) (w : W) → IsStatus (gateway d w).1.status
  unfolding handle_post_quotes
  gateway-IsStatus too_large w = inr (inl refl)
  gateway-IsStatus malformed w = inr (inl refl)
  gateway-IsStatus (body req) w = elim (Option-cases (validate_quote_request req)) [
    | inl e ↦ accepted_status req w ((validate_quote_request-IsValid req).0 e)
    | inr (invalid, e) ↦ inr (
        inl
          (handle_post_quotes_rejects zero_premium (get_quotes repo gather carriers breakers)
            header_id client_id duration (body req) w
            (λ v. not_none _ invalid e ((validate_quote_request-IsValid req).1 v))).1)
  ]
