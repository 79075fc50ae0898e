-- ===== src/Middleware/Chain.antt =====
-- The chain of handlers that `Run` of internal/cli/run.go builds: AuditLog of internal/middleware/audit.go
-- around SecurityHeaders of security.go around RequireAPIKey around LimitConcurrency around the mux,
-- which is a parameter, for requests whose handling does not overlap; `others` is the number of other
-- requests in flight. The method and the duration of an audit line are left out.
pub mod Verdict
use text.Mathlib.Text.{◌==◌ as same_text}
use riskforge.Prelude.{
  ℕ, ◌≡◌, refl, sym, ap, subst, ◌∙◌, String, Bool, true, false, List, [], ◌∷◌, Option, none, some,
  arith, ltb, any, All, OneOf, if◌then◌else◌, Dict, Entry, read, write, inl, inr, ◌⊎◌,
}
use riskforge.Middleware.Auth.{
  Limiting, AuthFailureLimiter, HttpRequest, AuthResponse, unauthorized, too_many_requests, served,
  require_api_key, is_exhausted, client_ip, credential, key_id, decide, outcome,
  require_api_key-decide,
}
use riskforge.Middleware.Concurrency.{service_unavailable}
use riskforge.Middleware.Writer.{
  ResponseWriter, fresh_writer, set_header, write_header, write_body, response,
}

pub record Exchange (W : Type 0) : Type 0 where
  pub world : W
  pub writer : ResponseWriter

-- A handler for a request whose context may have a client.
abbrev pub Handler : Type 0 → Type 0
Handler W = HttpRequest → Option String → Exchange W → Exchange W

pub record AuditLine : Type 0 where
  pub path : String
  pub status : ℕ
  pub client_id : String

abbrev pub security_header_list : Dict String
security_header_list =
    record { key = "X-Content-Type-Options"; value = "nosniff" }
    ∷ record { key = "Strict-Transport-Security"; value = "max-age=63072000; includeSubDomains" }
    ∷ record { key = "X-Frame-Options"; value = "DENY" }
    ∷ record { key = "Cache-Control"; value = "no-store" }
    ∷ record { key = "Content-Security-Policy"; value = "default-src 'none'" }
    ∷ []

abbrev pub set_all : Dict String → ResponseWriter → ResponseWriter
set_all [] w = w
set_all (h ∷ hs) w = set_all hs (set_header h.key h.value w)

abbrev pub write_json : ResponseWriter → ResponseWriter
write_json w = set_header "Content-Type" "application/json" w

unfoldable pub write_unauthorized : ResponseWriter → ResponseWriter
write_unauthorized w =
    write_body "{\"error\":\"UNAUTHORIZED: missing or invalid API key\"}\n"
      (write_header 401 (write_json w))

unfoldable pub write_too_many_requests : ResponseWriter → ResponseWriter
write_too_many_requests w =
    write_body "{\"error\":\"TOO_MANY_REQUESTS: too many failed authentication attempts\"}\n"
      (write_header 429 (set_header "Retry-After" "60" (write_json w)))

unfoldable pub write_service_unavailable : ResponseWriter → ResponseWriter
write_service_unavailable w =
    write_body "{\"error\":\"SERVICE_UNAVAILABLE: too many concurrent requests\"}\n" (
      write_header service_unavailable.status (
        set_header "Retry-After" service_unavailable.retry_after
          (set_header "Content-Type" service_unavailable.content_type w)))

-- `ClientIDFromContext`.
abbrev pub client_id_from_context : Option String → String
client_id_from_context none = ""
client_id_from_context (some id) = id

-- The field `status` of `statusRecorder`: the last WriteHeader, or 200.
abbrev pub recorded_status : ResponseWriter → ℕ
recorded_status w = elim w.codes [ [] ↦ 200 | code ∷ codes ↦ code ]

-- The context of the request that is passed on.
abbrev pub with_client : Option String → Option String → Option String
with_client client none = client
with_client client (some id) = some id

abbrev pub write_answer : {W : Type 0} → AuthResponse (Unit {0}) → Exchange W → Exchange W
write_answer unauthorized e = record e { writer = write_unauthorized e.writer }
write_answer too_many_requests e = record e { writer = write_too_many_requests e.writer }
write_answer (served done) e = e

module _ (limiting : Limiting) (W : Type 0) where
  pub record Server : Type 0 where
    pub limiter : AuthFailureLimiter limiting
    pub exchange : Exchange W
    pub audit : List AuditLine

  abbrev pub Middleware : Type 0
  Middleware = HttpRequest → Option String → Server → Server

  unfoldable pub audit_log : Middleware → Middleware
  audit_log next r client s =
      let s' = next r client s in
      record s' {
        audit =
            record {
              path = r.path;
              status = recorded_status s'.exchange.writer;
              client_id = client_id_from_context client;
            }
            ∷ s'.audit;
      }

  unfoldable pub security_headers : Middleware → Middleware
  security_headers next r client s = next r client (record s {
    exchange = record s.exchange { writer = set_all security_header_list s.exchange.writer };
  })

  -- RequireAPIKey with what it writes.
  unfoldable pub authenticated : List String → List String → ℕ → Handler W → Middleware
  authenticated keys skip_paths now next r client s =
      let (l, e, answer) =
        require_api_key limiting (λ id e. (next r (with_client client id) e, tt)) keys skip_paths
          now r s.limiter s.exchange in
      record s { limiter = l; exchange = write_answer answer e }

  unfoldable pub limit_concurrency : ℕ → ℕ → Handler W → Handler W
  limit_concurrency max others next r client e =
      if ltb others max
      then next r client e
      else record e { writer = write_service_unavailable e.writer }

  module _ (keys skip_paths : List String) (max : ℕ) (mux : Handler W) where
    unfoldable pub serve : ℕ → ℕ → Middleware
    unfolding audit_log security_headers authenticated limit_concurrency
    serve now others =
        audit_log
          (security_headers (authenticated keys skip_paths now (limit_concurrency max others mux)))
