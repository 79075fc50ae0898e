-- ===== src/Wiring/Process/Database.antt =====
-- `Run` of internal/cli/run.go with a configured database that has carriers.
use text.Mathlib.Text.{◌==◌ as same_text}
use riskforge.Prelude.{
  ◌+◌, ◌≡◌, refl, ap, ◌∙◌, String, false, List, [], ◌∷◌, some, inr, Dict, arith,
}
use riskforge.Prelude.Float.{Float}
use riskforge.Domain.{Carrier, CoverageLine}
use riskforge.Breaker.{Breaker}
use riskforge.Orchestrator.Eligible.{
  list_active, filter_eligible_carriers, list_active_never_eligible,
}
use riskforge.Wiring.Carriers.{choose_carriers}
use riskforge.Wiring.Process.{
  Platform, Process, setup_of, zero_config, connect, run_connected, run_with, configured_keys,
  run_keys, run, database_path,
}
use riskforge.Wiring.Process.Tidiness.{serve_until-servers}

module _ (float : Float) {W Client : Type 0} (platform : Platform float.F W Client) where
  open float use {F}
  open platform use {getenv, new_client, carrier_rows}

  abbrev State : Type 0
  State = Process F W Client

  abbrev path : String
  path =
      database_path (getenv "SPANNER_PROJECT") (getenv "SPANNER_INSTANCE")
        (getenv "SPANNER_DATABASE")

  run_connected-servers :
      (keys : List String) (client : Client) (s : State) (c : Carrier F) (cs : List (Carrier F))
      → list_active (zero_config float platform) (carrier_rows client s.world).1 ≡ inr (c ∷ cs)
      → (run_connected float platform keys (inr client) s).0.servers
        ≡ setup_of float platform keys (c ∷ cs) (some client) ∷ s.servers
  unfolding run_connected choose_carriers
  run_connected-servers keys client s c cs e = rw (serve_until-servers float platform) (rw e refl)

  run_with-servers :
      (keys : List String) (client : Client) (s : State) (c : Carrier F) (cs : List (Carrier F))
      → same_text (getenv "SPANNER_PROJECT") "" ≡ false
      → same_text (getenv "SPANNER_INSTANCE") "" ≡ false
      → same_text (getenv "SPANNER_DATABASE") "" ≡ false
      → (new_client path s.world).1 ≡ inr client
      → list_active (zero_config float platform) (carrier_rows client (new_client path s.world).0).1
        ≡ inr (c ∷ cs)
      → (run_with float platform keys s).0.servers
        ≡ setup_of float platform keys (c ∷ cs) (some client) ∷ s.servers
  unfolding run_with connect
  run_with-servers keys client s c cs project instance_id database made rows = ground (
    arith,
    run_connected-servers keys client
        (record s { watching = s.watching + 1; world = (new_client path s.world).0 }) c cs,
  )

  -- With API keys, a configured database that can be reached, and rows from which `ListActive` makes carriers, `Run`
  -- starts a server with these carriers, and none of them is ever eligible, whatever the breakers and the
  -- requested lines.
  pub run_never_eligible :
      (k : String) (keys : List String) (client : Client) (s : State) (c : Carrier F)
      (cs : List (Carrier F))
      → configured_keys float platform ≡ k ∷ keys
      → same_text (getenv "SPANNER_PROJECT") "" ≡ false
      → same_text (getenv "SPANNER_INSTANCE") "" ≡ false
      → same_text (getenv "SPANNER_DATABASE") "" ≡ false
      → (new_client path s.world).1 ≡ inr client
      → list_active (zero_config float platform) (carrier_rows client (new_client path s.world).0).1
        ≡ inr (c ∷ cs)
      → ((run float platform s).0.servers
          ≡ setup_of float platform (k ∷ keys) (c ∷ cs) (some client) ∷ s.servers)
        × ((breakers : Dict Breaker) (lines : List CoverageLine)
            → filter_eligible_carriers (c ∷ cs) breakers lines ≡ [])
  unfolding run
  run_never_eligible k keys client s c cs asked project instance_id database made rows = (
    ap (λ (ks : List String). (run_keys float platform ks s).0.servers) asked
        ∙ run_with-servers (k ∷ keys) client s c cs project instance_id database made rows,
    λ breakers lines.
        list_active_never_eligible (zero_config float platform)
          (carrier_rows client (new_client path s.world).0).1 (c ∷ cs) breakers lines rows,
  )
