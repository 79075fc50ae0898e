-- ===== src/Wiring/Process.antt =====
-- `Run` of internal/cli/run.go from the environment to its return, with `main` of cmd/api/main.go and NewClient
-- of internal/adapter/spanner/client.go. The environment, the text functions of Go's library, the Spanner
-- client and the HTTP server are a record of operations on a state `W`. The server gets a description of what
-- `Run` gives it; the chain of handlers is in Middleware/Chain, the maps are in Wiring. Log lines are left out.
pub mod Tidiness
pub mod Database
mod Samples
use text.Mathlib.Text.{◌==◌ as same_text}
use Prim.Native.String
use riskforge.Prelude.{
  ℕ, ◌+◌, ◌≡◌, String, Bool, true, false, ◌||◌, List, [], ◌∷◌, Option, none, some, ◌⊎◌, inl, inr,
  if◌then◌else◌,
}
use riskforge.Prelude.Float.{Float}
use riskforge.Prelude.Int.{pos}
use riskforge.Domain.{Carrier, CarrierConfig}
use riskforge.Domain.Errors.{Error, other, wrap}
use riskforge.Orchestrator.Eligible.{CarrierRow, list_active}
use riskforge.Wiring.{api_keys}
use riskforge.Wiring.Carriers.{choose_carriers}

-- How the select ends: by a signal, by the closed channel, or by an error of ListenAndServe.
pub data Ending : Type 0 where
  interrupted closed : Ending
  failed : Error → Ending

-- What `Run` gives the server: the parts and the timeouts in nanoseconds.
pub record Setup (F Client : Type 0) : Type 0 where
  pub addr : String
  pub keys : List String
  pub skip_paths : List String
  pub max_concurrent : ℕ
  pub carriers : List (Carrier F)
  pub repo : Option Client
  pub read_timeout : ℕ
  pub write_timeout : ℕ
  pub idle_timeout : ℕ

pub record Platform (F W Client : Type 0) : Type 0 where
  pub getenv : String → String
  pub split : String → List String  -- at the commas
  pub trim_space : String → String
  pub new_client : String → W → W × (Error ⊎ Client)
  pub carrier_rows : Client → W → W × List (Error ⊎ CarrierRow F)
  pub listen : Setup F Client → W → W × Ending
  pub shutdown : ℕ → W → W × Option Error

-- What `Run` has opened and closed again: handlers of signals, clients of Spanner, sweeps of the authentication;
-- and the servers that it has started, the newest first.
pub record Process (F W Client : Type 0) : Type 0 where
  pub world : W
  pub watching : ℕ
  pub unwatched : ℕ
  pub connected : ℕ
  pub disconnected : ℕ
  pub sweeping : ℕ
  pub swept : ℕ
  pub cleanups : ℕ
  pub servers : List (Setup F Client)

abbrev pub database_path : String → String → String → String
database_path project instance_id database = String.◌++◌ "projects/" (
    String.◌++◌ project
      (String.◌++◌ "/instances/" (String.◌++◌ instance_id (String.◌++◌ "/databases/" database))))

abbrev pub shutdown_timeout : ℕ
shutdown_timeout = 30_000_000_000

module _ (float : Float) {W Client : Type 0} (platform : Platform float.F W Client) where
  open float use {F, of_int}
  open platform use {getenv, split, trim_space, new_client, carrier_rows, listen, shutdown}

  abbrev State : Type 0
  State = Process F W Client

  unfoldable pub env_or_default : String → String → String
  env_or_default key fallback = if same_text (getenv key) "" then fallback else getenv key

  -- The zero value of the configuration.
  abbrev pub zero_config : CarrierConfig F
  zero_config = record {
    timeout_hint = pos 0;
    open_timeout = pos 0;
    failure_threshold = pos 0;
    success_threshold = pos 0;
    hedge_multiplier = of_int (pos 0);
    ema_alpha = of_int (pos 0);
    ema_window_size = pos 0;
    ema_warmup_observations = pos 0;
    rate_limit = record { tokens_per_second = of_int (pos 0); burst = pos 0 };
    priority = pos 0;
  }

  abbrev pub setup_of : List String → List (Carrier F) → Option Client → Setup F Client
  setup_of keys carriers repo = record {
    addr = String.◌++◌ ":" (env_or_default "PORT" "8080");
    keys = keys;
    skip_paths = "/healthz" ∷ "/readyz" ∷ "/metrics" ∷ [];
    max_concurrent = 100;
    carriers = carriers;
    repo = repo;
    read_timeout = 30_000_000_000;
    write_timeout = 30_000_000_000;
    idle_timeout = 120_000_000_000;
  }

  -- After the select.
  unfoldable pub wind_down : Ending → State → State × Option Error
  wind_down (failed e) s = (s, some (wrap "server error" e))
  wind_down interrupted s =
      let (w, failure) = shutdown shutdown_timeout s.world in
      elim failure [
        | some e ↦ (record s { world = w }, some (wrap "shutdown" e))
        | none ↦ (record s { world = w }, none)
      ]
  wind_down closed s =
      let (w, failure) = shutdown shutdown_timeout s.world in
      elim failure [
        | some e ↦ (record s { world = w }, some (wrap "shutdown" e))
        | none ↦ (record s { world = w }, none)
      ]

  -- From the chain of handlers on, with the deferred `stopAuth`.
  unfoldable pub serve_until : Setup F Client → State → State × Option Error
  unfolding wind_down
  serve_until setup s =
      let (w, ending) = listen setup s.world in
      let (s', result) =
        wind_down ending
          (record s { world = w; sweeping = s.sweeping + 1; servers = setup ∷ s.servers }) in
      (record s' { swept = s'.swept + 1 }, result)

  -- NewClient.
  unfoldable pub connect : String → String → String → W → W × (Error ⊎ Client)
  connect project instance_id database w =
      let (w', client) = new_client (database_path project instance_id database) w in
      elim client [ inl e ↦ (w', inl (wrap "spanner client" e)) | inr c ↦ (w', inr c) ]

  -- With a configured database, and the deferred Close. The cleanup runs until the context ends.
  unfoldable pub run_connected : List String → (Error ⊎ Client) → State → State × Option Error
  unfolding serve_until
  run_connected keys (inl e) s = (s, some (wrap "spanner connect" e))
  run_connected keys (inr client) s =
      let (w, rows) = carrier_rows client s.world in
      let (s', result) =
        serve_until
          (setup_of keys (choose_carriers float (some (list_active zero_config rows)))
            (some client))
          (record s { world = w; connected = s.connected + 1; cleanups = s.cleanups + 1 }) in
      (record s' { disconnected = s'.disconnected + 1 }, result)

  -- After the keys were read, with the deferred `stop` of the signals.
  unfoldable pub run_with : List String → State → State × Option Error
  unfolding run_connected connect serve_until
  run_with keys s =
      let watched = record s { watching = s.watching + 1 } in
      let project = getenv "SPANNER_PROJECT" in
      let instance_id = getenv "SPANNER_INSTANCE" in
      let database = getenv "SPANNER_DATABASE" in
      let (s', result) =
        if same_text project "" || same_text instance_id "" || same_text database ""
        then serve_until (setup_of keys (choose_carriers float none) none) watched
        else (let (w, client) = connect project instance_id database s.world in
            run_connected keys client (record watched { world = w })) in
      (record s' { unwatched = s'.unwatched + 1 }, result)

  abbrev pub configured_keys : List String
  configured_keys = api_keys trim_space (split (env_or_default "API_KEYS" ""))

  abbrev pub run_keys : List String → State → State × Option Error
  run_keys [] s = (s, some (other "API_KEYS environment variable required"))
  run_keys (k ∷ keys) s = run_with (k ∷ keys) s

  unfoldable pub run : State → State × Option Error
  unfolding run_with
  run s = run_keys configured_keys s

  -- `main`.
  abbrev pub exit_code : Option Error → ℕ
  exit_code none = 0
  exit_code (some e) = 1
