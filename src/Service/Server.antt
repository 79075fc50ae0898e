-- ===== src/Service/Server.antt =====
-- The whole server of internal/cli/run.go: the chain of handlers of Middleware/Chain around the mux with the
-- handlers of internal/handler/http.go, over `GetQuotes`. How the mux matches a pattern, how a body is decoded
-- and an answer encoded, the handler of /metrics and the answer to an unknown path are parameters.
use riskforge.Prelude.{
  ℕ, ◌≡◌, refl, sym, ap, subst, ◌∙◌, String, List, ◌∷◌, Option, none, some, ◌⊎◌, inl, inr, Dict,
  Option-cases,
}
use riskforge.Prelude.Int.{ℤ}
use riskforge.Domain.{Carrier}
use riskforge.Domain.Errors.{Error}
use riskforge.Breaker.{Breaker}
use riskforge.Orchestrator.Quotes.{QuoteRepository, Gather}
use riskforge.Handler.Post.{Decoded, Answer, Response}
use riskforge.Handler.Gateway.{gateway, IsStatus, gateway-IsStatus}
use riskforge.Handler.Health.{
  Endpoint, handle_post_quotes, metrics, healthz, handle_readyz, PlainAnswer, readyz,
}
use riskforge.Middleware.Auth.{Limiting, AuthFailureLimiter, HttpRequest}
use riskforge.Middleware.Writer.{ResponseWriter, write_header, write_body, response}
use riskforge.Middleware.Chain.{
  Exchange, Handler, AuditLine, security_header_list, write_json, write_unauthorized,
  write_too_many_requests, write_service_unavailable, client_id_from_context, recorded_status,
  serve,
}
use riskforge.Middleware.Chain.Verdict.{
  Verdict, refused_401, refused_429, refused_503, admitted, carry_out, guarded_writer, HasAll,
  verdict, start, LeavesHeaders, json_LeavesHeaders, serve-verdict,
}

-- The JSON answer with its status, and the plain one.
unfoldable pub write_response : (Answer → String) → Response → ResponseWriter → ResponseWriter
write_response encode resp w =
    write_body (encode resp.answer) (write_header resp.status (write_json w))

unfoldable pub write_plain : PlainAnswer → ResponseWriter → ResponseWriter
write_plain a w = write_body a.body (write_header a.status w)

-- What the libraries do, and the database behind /readyz.
pub record Outside (W : Type 0) : Type 0 where
  pub endpoint_of : HttpRequest → Option Endpoint
  pub decode : HttpRequest → Decoded
  pub header_id : HttpRequest → String
  pub encode : Answer → String
  pub serve_metrics : Handler W
  pub not_found : Handler W
  pub ping : Option (ℕ → W → W × Option Error)

module _ {F W : Type 0} (outside : Outside W) (repo : Option (QuoteRepository W))
    (gather : Gather F W) (carriers : List (Carrier F)) (breakers : Dict Breaker) (zero_premium : F)
    (duration : ℤ) where
  open outside use {endpoint_of, decode, header_id, encode, serve_metrics, not_found, ping}

  unfoldable pub serve_endpoint : Endpoint → Handler W
  unfolding write_response write_plain
  serve_endpoint handle_post_quotes r client e =
      let (w, resp) =
        gateway repo gather carriers breakers zero_premium (header_id r)
          (client_id_from_context client) duration (decode r) e.world in
      record { world = w; writer = write_response encode resp e.writer }
  serve_endpoint metrics r client e = serve_metrics r client e
  serve_endpoint healthz r client e = record e {
    writer = write_plain (record { status = 200; body = "ok" }) e.writer;
  }
  serve_endpoint handle_readyz r client e =
      let (w, a) = readyz ping e.world in record { world = w; writer = write_plain a e.writer }

  unfoldable pub mux : Handler W
  unfolding serve_endpoint
  mux r client e = elim (endpoint_of r) [
    | none ↦ not_found r client e
    | some endpoint ↦ serve_endpoint endpoint r client e
  ]

-- What the server answers to POST /quotes.
abbrev pub IsServerStatus : ℕ → Type 0
IsServerStatus n = IsStatus n ⊎ (n ≡ 401) ⊎ (n ≡ 429) ⊎ (n ≡ 503)

-- The response has one of these, and it is the status that was recorded.
abbrev IsAnswered : ResponseWriter → Type 0
IsAnswered w = IsServerStatus (response w).status × (recorded_status w ≡ (response w).status)

module _ {F W : Type 0} (outside : Outside W) (repo : Option (QuoteRepository W))
    (gather : Gather F W) (carriers : List (Carrier F)) (breakers : Dict Breaker) (zero_premium : F)
    (duration : ℤ) where
  post_quotes-IsAnswered :
      (r : HttpRequest) (client : Option String) (w : W)
      → IsAnswered
          (serve_endpoint outside repo gather carriers breakers zero_premium duration
            handle_post_quotes r client
            (record { world = w; writer = guarded_writer })).writer
  unfolding serve_endpoint
  post_quotes-IsAnswered r client w = (
    inl (
        gateway-IsStatus repo gather carriers breakers zero_premium (outside.header_id r)
          (client_id_from_context client) duration (outside.decode r) w),
    refl,
  )

module _ {F W : Type 0} (outside : Outside W) (repo : Option (QuoteRepository W))
    (gather : Gather F W) (carriers : List (Carrier F)) (breakers : Dict Breaker) (zero_premium : F)
    (duration : ℤ) (metrics_law : LeavesHeaders outside.serve_metrics)
    (unknown_law : LeavesHeaders outside.not_found) where
  serve_endpoint-LeavesHeaders :
      (endpoint : Endpoint)
      → LeavesHeaders
          (serve_endpoint outside repo gather carriers breakers zero_premium duration endpoint)
  unfolding serve_endpoint
  serve_endpoint-LeavesHeaders handle_post_quotes r client e name fresh listed =
      rw fresh (json_LeavesHeaders e.writer name listed)
  serve_endpoint-LeavesHeaders metrics r client e name fresh listed =
      metrics_law r client e name fresh listed
  serve_endpoint-LeavesHeaders healthz r client e name fresh listed = rw fresh refl
  serve_endpoint-LeavesHeaders handle_readyz r client e name fresh listed = rw fresh refl

  pub mux-LeavesHeaders :
      LeavesHeaders (mux outside repo gather carriers breakers zero_premium duration)
  unfolding mux
  mux-LeavesHeaders r client e name fresh listed = elim (Option-cases (outside.endpoint_of r)) [
    | inl unknown ↦ rw (unknown, mux) (unknown_law r client e name fresh listed)
    | inr (endpoint, known) ↦
        rw (known, mux) (serve_endpoint-LeavesHeaders endpoint r client e name fresh listed)
  ]

  pub mux_known :
      (r : HttpRequest) (client : Option String) (e : Exchange W) (endpoint : Endpoint)
      → outside.endpoint_of r ≡ some endpoint
      → mux outside repo gather carriers breakers zero_premium duration r client e
        ≡ serve_endpoint outside repo gather carriers breakers zero_premium duration endpoint r
            client e
  unfolding mux serve_endpoint
  mux_known r client e endpoint known = rw (known, mux) refl

  carry_out-IsAnswered :
      (r : HttpRequest) (v : Verdict) (w : W)
      → outside.endpoint_of r ≡ some handle_post_quotes
      → IsAnswered
          (carry_out
            (mux outside repo gather carriers breakers zero_premium duration)
            r
            v
            (record { world = w; writer = guarded_writer })).writer
  unfolding write_unauthorized write_too_many_requests write_service_unavailable
  carry_out-IsAnswered r refused_401 w known = (inr (inl refl), refl)
  carry_out-IsAnswered r refused_429 w known = (inr (inr (inl refl)), refl)
  carry_out-IsAnswered r refused_503 w known = (inr (inr (inr refl)), refl)
  carry_out-IsAnswered r (admitted client) w known =
      let e : Exchange W = record { world = w; writer = guarded_writer } in
      subst (λ (x : Exchange W). IsAnswered x.writer)
        (sym (mux_known r client e handle_post_quotes known))
        (post_quotes-IsAnswered outside repo gather carriers breakers zero_premium duration r client
          w)

  -- Every request to POST /quotes gets one of the statuses 200, 400, 422, 401, 429 and 503, and a response with all
  -- security headers, whatever fails behind the server; and the audit log gets one line for it, with the
  -- status that was sent. The handler of /metrics and the answer to unknown paths are assumed to leave the security
  -- headers.
  pub serve_post_quotes :
      (limiting : Limiting) (keys skip_paths : List String) (max now others : ℕ) (r : HttpRequest)
      (l : AuthFailureLimiter limiting) (w : W) (lines : List AuditLine)
      → outside.endpoint_of r ≡ some handle_post_quotes
      → (let handler = mux outside repo gather carriers breakers zero_premium duration in
          let s =
            serve limiting W keys skip_paths max handler now others r none
              (start limiting keys skip_paths max handler l w lines) in
          let sent = response s.exchange.writer in
          IsServerStatus sent.status
          × HasAll security_header_list sent.header
          × (s.audit ≡ record { path = r.path; status = sent.status; client_id = "" } ∷ lines))
  serve_post_quotes limiting keys skip_paths max now others r l w lines known =
      let handler = mux outside repo gather carriers breakers zero_premium duration in
      let (done, headers, line) =
        serve-verdict limiting keys skip_paths max handler mux-LeavesHeaders now others r l w
          lines in
      let (status, recorded) =
        subst (λ (x : Exchange W). IsAnswered x.writer) (sym done)
          (carry_out-IsAnswered r (verdict limiting keys skip_paths max now others r l) w known) in
      (
        status,
        headers,
        line
            ∙ ap (λ code. record { path = r.path; status = code; client_id = "" } ∷ lines) recorded,
      )
