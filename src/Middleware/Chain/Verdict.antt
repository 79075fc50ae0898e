-- ===== src/Middleware/Chain/Verdict.antt =====
-- What becomes of a request in the chain of handlers of internal/cli/run.go.
use text.Mathlib.Text.{◌==◌ as same_text}
use text.Mathlib.TextEquality.{eq_iff}
use riskforge.Prelude.{
  ℕ, ◌≡◌, refl, sym, ap, subst, ◌∙◌, String, Bool, true, false, List, ◌∷◌, Option, none, some,
  arith, ltb, any, All, if◌then◌else◌, Dict, Entry, read, write, inl, inr, Bool-cases,
  read-write_other,
}
use riskforge.Middleware.Auth.{
  Limiting, AuthFailureLimiter, HttpRequest, AuthResponse, served, too_many_requests, is_exhausted,
  client_ip, credential, key_id, decide, require_api_key-decide,
}
use riskforge.Middleware.Writer.{ResponseWriter, fresh_writer, response}
use riskforge.Middleware.Chain.{
  Exchange, Handler, AuditLine, Server, security_header_list, write_json, set_all,
  write_unauthorized, write_too_many_requests, write_service_unavailable, recorded_status,
  with_client, write_answer, authenticated, limit_concurrency, serve,
}

-- What is decided about a request before the mux.
pub data Verdict : Type 0 where
  refused_401 refused_429 refused_503 : Verdict
  admitted : Option String → Verdict

abbrev pub admit : Bool → Option String → Verdict
admit true client = admitted client
admit false client = refused_503

abbrev pub carry_out : {W : Type 0} → Handler W → HttpRequest → Verdict → Exchange W → Exchange W
carry_out mux r refused_401 e = record e { writer = write_unauthorized e.writer }
carry_out mux r refused_429 e = record e { writer = write_too_many_requests e.writer }
carry_out mux r refused_503 e = record e { writer = write_service_unavailable e.writer }
carry_out mux r (admitted client) e = mux r client e

-- The writer that the mux gets.
abbrev pub guarded_writer : ResponseWriter
guarded_writer = set_all security_header_list fresh_writer

-- The headers of the list have their values.
abbrev pub HasAll : Dict String → Dict String → Type 0
HasAll hs d = All (λ (h : Entry String). read d h.key ≡ some h.value) hs

guarded_HasAll : HasAll security_header_list guarded_writer.header
unfolding read write
guarded_HasAll = (refl, (refl, (refl, (refl, (refl, tt)))))

-- What is assumed of a handler: as long as nothing is sent, it changes none of the security headers.
abbrev pub LeavesHeaders : {W : Type 0} → Handler W → Type 0
LeavesHeaders {W} mux =
    (r : HttpRequest) (client : Option String) (e : Exchange W) (name : String)
    → e.writer.sent ≡ none
    → any (λ (h : Entry String). same_text h.key name) security_header_list ≡ true
    → read (response (mux r client e).writer).header name ≡ read e.writer.header name

-- Setting the content type changes none of them.
pub json_LeavesHeaders :
    (w : ResponseWriter) (name : String)
    → any (λ (h : Entry String). same_text h.key name) security_header_list ≡ true
    → read (write_json w).header name ≡ read w.header name
json_LeavesHeaders w name listed =
    read-write_other w.header "Content-Type" name "application/json"
      (elim (Bool-cases (same_text "Content-Type" name)) [
        | inl e ↦
            let absent : false ≡ true =
              subst (λ n. any (λ (h : Entry String). same_text h.key n) security_header_list ≡ true)
                (sym ((eq_iff "Content-Type" name).0 e)) listed in
            cc absent
        | inr e ↦ e
      ])

module _ (limiting : Limiting) (keys skip_paths : List String) (max : ℕ) where
  -- The rules, in this order: a path that needs no key is admitted without a client; an address that
  -- has spent its budget of failures is refused with 429; a request whose credential is no key is
  -- refused with 401; and what is left is admitted if a place is free, and refused with 503 otherwise.
  abbrev pub verdict : ℕ → ℕ → HttpRequest → AuthFailureLimiter limiting → Verdict
  verdict now others r l =
      if any (λ p. same_text p r.path) skip_paths
      then admit (ltb others max) none
      else if (is_exhausted limiting now (client_ip r) l).1
      then refused_429
      else elim (credential r.authorization) [
        | none ↦ refused_401
        | some k ↦
            if any (λ key. same_text k key) keys
            then admit (ltb others max) (some (key_id k))
            else refused_401
      ]

  module _ {W : Type 0} (mux : Handler W) where
    decided-verdict :
        (now others : ℕ) (r : HttpRequest) (s : Server limiting W)
        → (let next : Option String → Exchange W → Exchange W × Unit {0} =
              λ id e. (limit_concurrency limiting W max others mux r (with_client none id) e, tt) in
            let p : Exchange W × AuthResponse (Unit {0}) =
              if any (λ p. same_text p r.path) skip_paths
              then (let (e, answer) = next none s.exchange in (e, served answer))
              else if (is_exhausted limiting now (client_ip r) s.limiter).1
              then (s.exchange, too_many_requests)
              else decide limiting next keys skip_paths (credential r.authorization) s.exchange in
            write_answer p.1 p.0)
          ≡ carry_out mux r (verdict now others r s.limiter) s.exchange
    unfolding limit_concurrency
    decided-verdict now others r s = ground arith

    authenticated-verdict :
        (now others : ℕ) (r : HttpRequest) (s : Server limiting W)
        → (authenticated limiting W keys skip_paths now
            (limit_concurrency limiting W max others mux)
            r
            none
            s).exchange
          ≡ carry_out mux r (verdict now others r s.limiter) s.exchange
    unfolding authenticated limit_concurrency
    authenticated-verdict now others r s =
        let next : Option String → Exchange W → Exchange W × Unit {0} =
          λ id e. (limit_concurrency limiting W max others mux r (with_client none id) e, tt) in
        ap (λ (p : Exchange W × AuthResponse (Unit {0})). write_answer p.1 p.0)
          (require_api_key-decide limiting next keys skip_paths now r s.limiter s.exchange)
        ∙ decided-verdict now others r s

    abbrev pub start : AuthFailureLimiter limiting → W → List AuditLine → Server limiting W
    start l w lines = record {
      limiter = l;
      exchange = record { world = w; writer = fresh_writer };
      audit = lines;
    }

    carry_out-HasAll :
        LeavesHeaders mux
        → (r : HttpRequest) (v : Verdict) (w : W)
        → HasAll security_header_list
            (response
              (carry_out mux r v (record { world = w; writer = guarded_writer })).writer).header
    unfolding read write write_unauthorized write_too_many_requests write_service_unavailable
    carry_out-HasAll law r refused_401 w = (refl, (refl, (refl, (refl, (refl, tt)))))
    carry_out-HasAll law r refused_429 w = (refl, (refl, (refl, (refl, (refl, tt)))))
    carry_out-HasAll law r refused_503 w = (refl, (refl, (refl, (refl, (refl, tt)))))
    carry_out-HasAll law r (admitted client) w =
        let kept : (name : String)
            → any (λ (h : Entry String). same_text h.key name) security_header_list ≡ true
            → read
                (response
                  (mux r client (record { world = w; writer = guarded_writer })).writer).header
                name
              ≡ read guarded_writer.header name =
          λ name. law r client (record { world = w; writer = guarded_writer }) name refl in
        (
          kept "X-Content-Type-Options" refl,
          (
            kept "Strict-Transport-Security" refl,
            (
              kept "X-Frame-Options" refl,
              (kept "Cache-Control" refl, (kept "Content-Security-Policy" refl, tt)),
            ),
          ),
        )

    -- Every request is carried out as the rules decide, after the security headers were set; whoever answers it, the
    -- response has all security headers, if the mux leaves them; and one line is
    -- added to the audit log, with the path, the status that was recorded, and an empty client, also for
    -- requests that are admitted under a client.
    pub serve-verdict :
        LeavesHeaders mux
        → (now others : ℕ) (r : HttpRequest) (l : AuthFailureLimiter limiting) (w : W)
          (lines : List AuditLine)
        → (let s = serve limiting W keys skip_paths max mux now others r none (start l w lines) in
            (s.exchange
              ≡ carry_out mux r
                  (verdict now others r l)
                  (record { world = w; writer = guarded_writer }))
            × HasAll security_header_list (response s.exchange.writer).header
            × (s.audit
                ≡ record {
                  path = r.path;
                  status = recorded_status s.exchange.writer;
                  client_id = "";
                }
                  ∷ lines))
    unfolding serve
    serve-verdict law now others r l w lines =
        let e : Exchange W = record { world = w; writer = guarded_writer } in
        let s : Server limiting W = record { limiter = l; exchange = e; audit = lines } in
        let same = authenticated-verdict now others r s in
        (
          same,
          subst (λ (x : Exchange W). HasAll security_header_list (response x.writer).header)
              (sym same) (carry_out-HasAll law r (verdict now others r l) w),
          refl,
        )
