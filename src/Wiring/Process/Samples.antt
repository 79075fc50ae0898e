-- ===== src/Wiring/Process/Samples.antt =====
-- Two runs of the server, with floats that are the natural numbers: without a database, and with one that has
-- a carrier.
use text.Mathlib.Text.{◌==◌ as same_text}
use riskforge.Prelude.{
  ℕ, ◌+◌, ◌-◌, ◌*◌, ◌/◌, ◌≡◌, refl, String, List, [], ◌∷◌, none, some, inr, Dict, if◌then◌else◌,
  leb,
}
use riskforge.Prelude.Int.{pos_part}
use riskforge.Prelude.Float.{Float}
use riskforge.Domain.{Carrier, CoverageLine}
use riskforge.Domain.Errors.{other, wrap}
use riskforge.Breaker.{Breaker}
use riskforge.Orchestrator.Eligible.{
  CarrierRow, list_active, filter_eligible_carriers, carrier_of_row,
}
use riskforge.Wiring.{api_keys}
use riskforge.Wiring.Process.{
  Ending, interrupted, failed, Platform, Process, setup_of, zero_config, run, env_or_default,
}
use riskforge.Wiring.Process.Tidiness.{IsBalanced, HasServed, run-IsBalanced}
use riskforge.Wiring.Process.Database.{run_never_eligible}

abbrev naturals : Float
naturals = record {
  F = ℕ;
  le = leb;
  add = ◌+◌;
  sub = ◌-◌;
  mul = ◌*◌;
  div = ◌/◌;
  of_int = pos_part;
  tenth = 0;
  max_float = 1_000_000_000;
}

abbrev row : CarrierRow ℕ
row = record { id = "delta"; name = "Delta"; code = "DE"; config = none }

-- One key, no spaces; the server fails at its start, or is interrupted.
abbrev machine : (String → String) → Ending → Platform ℕ ℕ ℕ
machine getenv ending = record {
  getenv = getenv;
  split = λ keys. keys ∷ [];
  trim_space = λ key. key;
  new_client = λ path w. (w + 1, inr w);
  carrier_rows = λ client w. (w + 1, inr row ∷ []);
  listen = λ setup w. (w + 1, ending);
  shutdown = λ timeout w. (w + 1, none);
}

abbrev keys_only : String → String
keys_only name = if same_text name "API_KEYS" then "secret" else ""

abbrev everything : String → String
everything name = "x"

abbrev fresh : Process ℕ ℕ ℕ
fresh = record {
  world = 0;
  watching = 0;
  unwatched = 0;
  connected = 0;
  disconnected = 0;
  sweeping = 0;
  swept = 0;
  cleanups = 0;
  servers = [];
}

abbrev local : Platform ℕ ℕ ℕ
local = machine keys_only (failed (other "address in use"))

abbrev cloud : Platform ℕ ℕ ℕ
cloud = machine everything interrupted

local_result : (run naturals local fresh).1 ≡ some (wrap "server error" (other "address in use"))
unfolding run env_or_default api_keys
local_result = refl

run-IsBalanced_example :
    IsBalanced naturals local fresh (run naturals local fresh).0
    × HasServed naturals local fresh (run naturals local fresh).0 (run naturals local fresh).1
run-IsBalanced_example = run-IsBalanced naturals local fresh

abbrev delta : Carrier ℕ
delta = carrier_of_row (zero_config naturals cloud) row

run_never_eligible_example :
    ((run naturals cloud fresh).0.servers
      ≡ setup_of naturals cloud ("x" ∷ []) (delta ∷ []) (some 0) ∷ [])
    × ((breakers : Dict Breaker) (lines : List CoverageLine)
        → filter_eligible_carriers (delta ∷ []) breakers lines ≡ [])
unfolding list_active api_keys env_or_default
run_never_eligible_example =
    run_never_eligible naturals cloud "x" [] 0 fresh delta [] refl refl refl refl refl refl
