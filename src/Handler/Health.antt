-- ===== src/Handler/Health.antt =====
-- `RegisterRoutes`, `handleReadyz` and `Shutdown` of internal/handler/http.go. The ping of the database
-- and the drain of the server act on a state `W`, with the time that they are given in nanoseconds.
use riskforge.Prelude.{List, [], ◌∷◌, ℕ, ◌≡◌, ◌↔◌, String, Option, none, some, arith}
use riskforge.Domain.Errors.{Error, wrap}

pub data Endpoint : Type 0 where
  handle_post_quotes metrics healthz handle_readyz : Endpoint

pub record Route : Type 0 where
  pub pattern : String
  pub endpoint : Endpoint

-- What is registered at the mux, whose matching of patterns is the library's.
unfoldable pub register_routes : List Route
register_routes =
    record { pattern = "POST /quotes"; endpoint = handle_post_quotes }
    ∷ record { pattern = "GET /metrics"; endpoint = metrics }
    ∷ record { pattern = "GET /healthz"; endpoint = healthz }
    ∷ record { pattern = "GET /readyz"; endpoint = handle_readyz }
    ∷ []

pub record PlainAnswer : Type 0 where
  pub status : ℕ
  pub body : String

abbrev pub readyz_timeout : ℕ
readyz_timeout = 2_000_000_000

abbrev pub shutdown_drain_window : ℕ
shutdown_drain_window = 30_000_000_000

module _ {W : Type 0} where
  -- `ping` is `PingContext` of the database, none if there is no database.
  unfoldable pub readyz : Option (ℕ → W → W × Option Error) → W → W × PlainAnswer
  readyz none w = (w, record { status = 200; body = "ok" })
  readyz (some ping) w =
      let (w', failure) = ping readyz_timeout w in
      elim failure [
        | some e ↦ (w', record { status = 503; body = "db: unreachable" })
        | none ↦ (w', record { status = 200; body = "ok" })
      ]

  unfoldable pub shutdown : (ℕ → W → W × Option Error) → W → W × Option Error
  shutdown drain w =
      let (w', failure) = drain shutdown_drain_window w in
      elim failure [ some e ↦ (w', some (wrap "http server shutdown" e)) | none ↦ (w', none) ]

  -- The server is ready exactly when there is no database or the ping gets an answer.
  readyz-status :
      (ping : ℕ → W → W × Option Error) (w : W)
      → ((readyz (some ping) w).1.status ≡ 200) ↔ ((ping readyz_timeout w).1 ≡ none)
  unfolding readyz
  readyz-status ping w = ground arith

  -- A shutdown succeeds exactly when the drain does.
  shutdown-none :
      (drain : ℕ → W → W × Option Error) (w : W)
      → ((shutdown drain w).1 ≡ none) ↔ ((drain shutdown_drain_window w).1 ≡ none)
  unfolding shutdown
  shutdown-none drain w = ground arith
