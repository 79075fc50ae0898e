-- ===== src/Wiring/Process/Tidiness.antt =====
-- What `Run` of internal/cli/run.go leaves behind, and the servers that it starts.
use text.Mathlib.Text.{◌==◌ as same_text}
use riskforge.Prelude.{
  ◌+◌, ◌≡◌, ◌≢◌, refl, String, false, ◌||◌, List, [], ◌∷◌, Option, none, some, ◌⊎◌, inl, inr, All,
  arith, Bool-cases,
}
use riskforge.Prelude.Float.{Float}
use riskforge.Domain.{Carrier}
use riskforge.Domain.Errors.{Error, wrap}
use riskforge.Orchestrator.Eligible.{list_active}
use riskforge.Wiring.{api_keys}
use riskforge.Wiring.Carriers.{choose_carriers}
use riskforge.Wiring.Process.{
  Ending, interrupted, closed, failed, Setup, Platform, Process, setup_of, zero_config, wind_down,
  serve_until, connect, run_connected, run_with, configured_keys, run_keys, run, shutdown_timeout,
}

abbrev pub IsFilled : String → Type 0
IsFilled k = same_text k "" ≡ false

api_keys-IsFilled : (trim : String → String) (ks : List String) → All IsFilled (api_keys trim ks)
unfolding api_keys
api_keys-IsFilled trim [] = tt
api_keys-IsFilled trim (k ∷ ks) = ground (arith, api_keys-IsFilled trim ks)

module _ (float : Float) {W Client : Type 0} (platform : Platform float.F W Client) where
  open float use {F}
  open platform use {getenv, new_client, carrier_rows, listen, shutdown}

  abbrev State : Type 0
  State = Process F W Client

  choose_carriers-ne-nil :
      (rows : Option (Error ⊎ List (Carrier F))) → choose_carriers float rows ≢ []
  unfolding choose_carriers
  choose_carriers-ne-nil none h = cc h
  choose_carriers-ne-nil (some (inl e)) h = cc h
  choose_carriers-ne-nil (some (inr [])) h = cc h
  choose_carriers-ne-nil (some (inr (c ∷ cs))) h = cc h

  -- As many of each kind were closed as were opened.
  pub record IsBalanced (s t : State) : Type 0 where
    pub signals : t.watching + s.unwatched ≡ t.unwatched + s.watching
    pub clients : t.connected + s.disconnected ≡ t.disconnected + s.connected
    pub sweeps : t.sweeping + s.swept ≡ t.swept + s.sweeping

  -- The server asks for a key, none of its keys is empty, and it has carriers.
  pub record IsGuarded (setup : Setup F Client) : Type 0 where
    pub some_key : setup.keys ≢ []
    pub filled : All IsFilled setup.keys
    pub some_carrier : setup.carriers ≢ []

  abbrev wrap_shutdown : Option Error → Option Error
  wrap_shutdown none = none
  wrap_shutdown (some e) = some (wrap "shutdown" e)

  -- What `Run` returns when the server has ended like this.
  abbrev pub outcome : W × Ending → Option Error
  outcome (w, failed e) = some (wrap "server error" e)
  outcome (w, interrupted) = wrap_shutdown (shutdown shutdown_timeout w).1
  outcome (w, closed) = wrap_shutdown (shutdown shutdown_timeout w).1

  -- Either no server was started, and there is an error, or one was.
  abbrev pub HasServed : State → State → Option Error → Type 0
  HasServed s t result =
      ((t.servers ≡ s.servers) × (result ≢ none))
      ⊎ ((setup : Setup F Client) × (w : W) × (t.servers ≡ setup ∷ s.servers)
          × IsGuarded setup
          × (result ≡ outcome (listen setup w)))

  -- What `serve_until` does to the counts.
  record IsServed (setup : Setup F Client) (s t : State) : Type 0 where
    watching : t.watching ≡ s.watching
    unwatched : t.unwatched ≡ s.unwatched
    connected : t.connected ≡ s.connected
    disconnected : t.disconnected ≡ s.disconnected
    sweeping : t.sweeping + s.swept ≡ t.swept + s.sweeping
    servers : t.servers ≡ setup ∷ s.servers

  serve_until-IsServed :
      (setup : Setup F Client) (s : State) → IsServed setup s (serve_until float platform setup s).0
  unfolding serve_until wind_down
  serve_until-IsServed setup s = ground arith

  pub serve_until-servers :
      (setup : Setup F Client) (s : State)
      → (serve_until float platform setup s).0.servers ≡ setup ∷ s.servers
  serve_until-servers setup s = (serve_until-IsServed setup s).servers

  serve_until-outcome :
      (setup : Setup F Client) (s : State)
      → (serve_until float platform setup s).1 ≡ outcome (listen setup s.world)
  unfolding serve_until wind_down
  serve_until-outcome setup s = ground arith

  -- The counts of signals stay, those of the clients are even.
  record IsKept (s t : State) : Type 0 where
    watching : t.watching ≡ s.watching
    unwatched : t.unwatched ≡ s.unwatched
    clients : t.connected + s.disconnected ≡ t.disconnected + s.connected
    sweeps : t.sweeping + s.swept ≡ t.swept + s.sweeping

  setup_of-IsGuarded :
      (k : String) (keys : List String) (rows : Option (Error ⊎ List (Carrier F)))
      (repo : Option Client)
      → All IsFilled (k ∷ keys)
      → IsGuarded (setup_of float platform (k ∷ keys) (choose_carriers float rows) repo)
  setup_of-IsGuarded k keys rows repo h = record {
    some_key = λ e. cc e;
    filled = h;
    some_carrier = choose_carriers-ne-nil rows;
  }

  serve_until-IsKept :
      (setup : Setup F Client) (s : State)
      → IsGuarded setup
      → IsKept s (serve_until float platform setup s).0
        × HasServed s (serve_until float platform setup s).0 (serve_until float platform setup s).1
  serve_until-IsKept setup s guarded =
      let v = serve_until-IsServed setup s in
      (
        record {
          watching = v.watching;
          unwatched = v.unwatched;
          clients = omega (arith, v.connected, v.disconnected);
          sweeps = v.sweeping;
        },
        inr (setup, s.world, v.servers, guarded, serve_until-outcome setup s),
      )

  run_connected-IsKept :
      (k : String) (keys : List String) (client : Error ⊎ Client) (s : State)
      → All IsFilled (k ∷ keys)
      → (let (t, result) = run_connected float platform (k ∷ keys) client s in
          IsKept s t × HasServed s t result)
  unfolding run_connected
  run_connected-IsKept k keys (inl e) s h = (
    record { watching = refl; unwatched = refl; clients = omega arith; sweeps = omega arith },
    inl (refl, λ x. cc x),
  )
  run_connected-IsKept k keys (inr client) s h =
      let rows = some (list_active (zero_config float platform) (carrier_rows client s.world).1) in
      let setup = setup_of float platform (k ∷ keys) (choose_carriers float rows) (some client) in
      let s' : State = record s {
        world = (carrier_rows client s.world).0;
        connected = s.connected + 1;
        cleanups = s.cleanups + 1;
      } in
      let v = serve_until-IsServed setup s' in
      (
        record {
          watching = v.watching;
          unwatched = v.unwatched;
          clients = omega (arith, v.connected, v.disconnected);
          sweeps = v.sweeping;
        },
        inr (
          setup,
          s'.world,
          v.servers,
          setup_of-IsGuarded k keys rows (some client) h,
          serve_until-outcome setup s',
        ),
      )

  run_with-IsBalanced :
      (k : String) (keys : List String) (s : State)
      → All IsFilled (k ∷ keys)
      → (let (t, result) = run_with float platform (k ∷ keys) s in
          IsBalanced s t × HasServed s t result)
  unfolding run_with
  run_with-IsBalanced k keys s h =
      let watched : State = record s { watching = s.watching + 1 } in
      let project = getenv "SPANNER_PROJECT" in
      let instance_id = getenv "SPANNER_INSTANCE" in
      let database = getenv "SPANNER_DATABASE" in
      elim (Bool-cases
        (same_text project "" || same_text instance_id "" || same_text database "")) [
          | inl e ↦
              let setup = setup_of float platform (k ∷ keys) (choose_carriers float none) none in
              let (v, served) =
                serve_until-IsKept setup watched (setup_of-IsGuarded k keys none none h) in
              rw (e, run_with)
                (
                  record {
                    signals = omega (arith, v.watching, v.unwatched);
                    clients = v.clients;
                    sweeps = v.sweeps;
                  },
                  served,
                )
          | inr e ↦
              let (w, client) = connect float platform project instance_id database s.world in
              let (v, served) =
                run_connected-IsKept k keys client (record watched { world = w }) h in
              rw (e, run_with)
                (
                  record {
                    signals = omega (arith, v.watching, v.unwatched);
                    clients = v.clients;
                    sweeps = v.sweeps;
                  },
                  served,
                )
        ]

  run_keys-IsBalanced :
      (keys : List String) (s : State)
      → All IsFilled keys
      → (let (t, result) = run_keys float platform keys s in IsBalanced s t × HasServed s t result)
  run_keys-IsBalanced [] s h = (
    record { signals = omega arith; clients = omega arith; sweeps = omega arith },
    inl (refl, λ x. cc x),
  )
  run_keys-IsBalanced (k ∷ keys) s h = run_with-IsBalanced k keys s h

  -- Whatever the environment is and whatever fails, `Run` closes as many clients of Spanner, stops as many sweeps
  -- and gives up as many signals as it has opened; and either it has started no server and returns an error, or
  -- it has started one, which asks for one of a list of keys, none of them empty, and which has carriers, and
  -- it returns the error of that server, that of its shutdown, or none.
  pub run-IsBalanced :
      (s : State)
      → (let (t, result) = run float platform s in IsBalanced s t × HasServed s t result)
  unfolding run
  run-IsBalanced s =
      run_keys-IsBalanced (configured_keys float platform) s
        (api_keys-IsFilled platform.trim_space _)
