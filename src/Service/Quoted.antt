-- ===== src/Service/Quoted.antt =====
-- A request to POST /quotes that is let through, from the chain of handlers of internal/cli/run.go to the answer
-- of internal/handler/http.go with the quotes of `GetQuotes`.
mod Samples
use text.Mathlib.Text.{◌==◌ as same_text}
use riskforge.Prelude.{
  ℕ, ◌≡◌, refl, sym, ap, subst, ◌∙◌, String, Bool, true, false, List, [], ◌∷◌, Option, none, some,
  arith, ltb, any, Dict, inr, if◌then◌else◌,
}
use riskforge.Prelude.Int.{ℤ}
use riskforge.Domain.{Carrier, QuoteResult}
use riskforge.Breaker.{Breaker}
use riskforge.Orchestrator.Quotes.{
  QuoteRepository, Gather, get_quotes, look_up, quotes_of, get_quotes-quotes_of,
}
use riskforge.Handler.Validate.{QuoteBody, IsValid}
use riskforge.Handler.Post.{
  Answer, body, domain_request, answer_of, status_of, reply_to, answer_of-status,
  answer_of-reply_to, handle_post_quotes-answer_of,
}
use riskforge.Handler.Gateway.{gateway}
use riskforge.Handler.Health.{handle_post_quotes}
use riskforge.Middleware.Auth.{
  Limiting, AuthFailureLimiter, HttpRequest, is_exhausted, client_ip, credential, key_id,
}
use riskforge.Middleware.Writer.{ResponseWriter, response}
use riskforge.Middleware.Chain.{Exchange, Handler, AuditLine, Server, security_header_list, serve}
use riskforge.Middleware.Chain.Verdict.{
  Verdict, admitted, carry_out, guarded_writer, HasAll, verdict, start, LeavesHeaders,
  serve-verdict,
}
use riskforge.Service.Server.{
  Outside, write_response, serve_endpoint, mux, mux_known, mux-LeavesHeaders, serve_post_quotes,
}

-- The request has a key, which its address may still use, and a place is free.
pub record IsLetThrough (limiting : Limiting) (keys skip_paths : List String) (max now others : ℕ)
    (r : HttpRequest) (l : AuthFailureLimiter limiting) (key : String) : Type 0 where
  pub asks_key : any (λ p. same_text p r.path) skip_paths ≡ false
  pub budget : (is_exhausted limiting now (client_ip r) l).1 ≡ false
  pub presents : credential r.authorization ≡ some key
  pub known : any (λ k. same_text key k) keys ≡ true
  pub free_place : ltb others max ≡ true

verdict-admitted :
    (limiting : Limiting) (keys skip_paths : List String) (max now others : ℕ) (r : HttpRequest)
    (l : AuthFailureLimiter limiting) (key : String)
    → IsLetThrough limiting keys skip_paths max now others r l key
    → verdict limiting keys skip_paths max now others r l ≡ admitted (some (key_id key))
verdict-admitted limiting keys skip_paths max now others r l key v = ground arith

module _ {F W : Type 0} (repo : Option (QuoteRepository W)) (gather : Gather F W)
    (carriers : List (Carrier F)) (breakers : Dict Breaker) (zero_premium : F) where
  -- What `GetQuotes` is asked for under this client.
  abbrev pub asked : String → QuoteBody → W → W × List QuoteResult
  asked client b w =
      let req = domain_request zero_premium client b in
      (
        (get_quotes repo gather carriers breakers req w).0,
        quotes_of repo gather carriers breakers req (look_up repo req w),
      )

module _ {F W : Type 0} (outside : Outside W) (repo : Option (QuoteRepository W))
    (gather : Gather F W) (carriers : List (Carrier F)) (breakers : Dict Breaker) (zero_premium : F)
    (duration : ℤ) where
  endpoint_reply :
      (r : HttpRequest) (client : String) (b : QuoteBody) (w : W)
      → outside.decode r ≡ body b
      → IsValid b
      → (let e =
            serve_endpoint outside repo gather carriers breakers zero_premium duration
              handle_post_quotes r
              (some client)
              (record { world = w; writer = guarded_writer }) in
          let (w', quotes) = asked repo gather carriers breakers zero_premium client b w in
          (e.world ≡ w')
          × ((response e.writer).status ≡ status_of (inr quotes))
          × (e.writer.body ≡ outside.encode (reply_to b.request_id duration quotes) ∷ []))
  unfolding serve_endpoint write_response
  endpoint_reply r client b w decoded valid =
      let ask = get_quotes repo gather carriers breakers in
      let id = outside.header_id r in
      let handled =
        ap (λ d. gateway repo gather carriers breakers zero_premium id client duration d w) decoded
        ∙ handle_post_quotes-answer_of zero_premium ask id client duration b w valid in
      let result =
        get_quotes-quotes_of repo gather carriers breakers (domain_request zero_premium client b)
          w in
      let request_id = if same_text b.request_id "" then id else b.request_id in
      let sent : Answer → List String = λ a. outside.encode a ∷ [] in
      (
        ap (λ p. p.0) handled,
        ap (λ p. p.1.status) handled
            ∙ answer_of-status zero_premium ask id client duration request_id b.request_id _
            ∙ ap status_of result,
        ap (λ p. sent p.1.answer) handled
            ∙ ap (λ x. sent (answer_of request_id b.request_id duration x).answer) result
            ∙ ap sent (answer_of-reply_to request_id b.request_id duration _),
      )

module _ {F W : Type 0} (outside : Outside W) (repo : Option (QuoteRepository W))
    (gather : Gather F W) (carriers : List (Carrier F)) (breakers : Dict Breaker) (zero_premium : F)
    (duration : ℤ) (metrics_law : LeavesHeaders outside.serve_metrics)
    (unknown_law : LeavesHeaders outside.not_found) where
  -- A request to POST /quotes with a key, whose address has not used up its budget of failures, that
  -- finds a free place and has a valid body, is answered with the quotes of `GetQuotes`, which was asked once, under
  -- the client of the key: with their list and status 200, or with status 422 and the reason that no carrier is
  -- eligible if there are none. The response has all security headers, and the log gets one line with its status.
  -- The handler of /metrics and the answer to unknown paths are assumed to leave the security headers.
  pub serve_valid_quotes :
      (limiting : Limiting) (keys skip_paths : List String) (max now others : ℕ) (r : HttpRequest)
      (l : AuthFailureLimiter limiting) (w : W) (lines : List AuditLine) (key : String)
      (b : QuoteBody)
      → outside.endpoint_of r ≡ some handle_post_quotes
      → IsLetThrough limiting keys skip_paths max now others r l key
      → outside.decode r ≡ body b
      → IsValid b
      → (let handler = mux outside repo gather carriers breakers zero_premium duration in
          let s =
            serve limiting W keys skip_paths max handler now others r none
              (start limiting keys skip_paths max handler l w lines) in
          let sent = response s.exchange.writer in
          let (w', quotes) = asked repo gather carriers breakers zero_premium (key_id key) b w in
          (s.exchange.world ≡ w')
          × (sent.status ≡ status_of (inr quotes))
          × (s.exchange.writer.body ≡ outside.encode (reply_to b.request_id duration quotes) ∷ [])
          × HasAll security_header_list sent.header
          × (s.audit ≡ record { path = r.path; status = sent.status; client_id = "" } ∷ lines))
  serve_valid_quotes limiting keys skip_paths max now others r l w lines key b known through decoded
        valid =
      let handler = mux outside repo gather carriers breakers zero_premium duration in
      let leaves =
        mux-LeavesHeaders outside repo gather carriers breakers zero_premium duration metrics_law
          unknown_law in
      let e : Exchange W = record { world = w; writer = guarded_writer } in
      let done =
        (serve-verdict limiting keys skip_paths max handler leaves now others r l w lines).0 in
      let (served, headers, logged) =
        serve_post_quotes outside repo gather carriers breakers zero_premium duration metrics_law
          unknown_law limiting keys skip_paths max now others r l w lines known in
      let path =
        done
        ∙ ap (λ v. carry_out handler r v e)
            (verdict-admitted limiting keys skip_paths max now others r l key through)
        ∙ mux_known outside repo gather carriers breakers zero_premium duration metrics_law
            unknown_law r (some (key_id key)) e handle_post_quotes known in
      let (world, status, text) =
        endpoint_reply outside repo gather carriers breakers zero_premium duration r (key_id key) b
          w decoded valid in
      (
        ap (λ (x : Exchange W). x.world) path ∙ world,
        ap (λ (x : Exchange W). (response x.writer).status) path ∙ status,
        ap (λ (x : Exchange W). x.writer.body) path ∙ text,
        headers,
        logged,
      )
