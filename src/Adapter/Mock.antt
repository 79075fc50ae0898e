-- ===== src/Adapter/Mock.antt =====
-- The simulated carriers of internal/adapter/mock_carrier.go. What Go's random numbers, the timer and the
-- clock do with a state `W` is a parameter; log lines are left out. A latency does not overflow a duration,
-- and a premium does not overflow an int64.
use Prim.Native.String.{len}
use riskforge.Prelude.{
  ℕ, ◌+◌, ◌*◌, ◌<◌, ◌≤◌, ◌≡◌, refl, sym, subst, String, Bool, true, false, List, Option, none, some,
  ◌⊎◌, inl, inr, if◌then◌else◌, arith, Bool-cases, ◌-◌,
}
use riskforge.Prelude.Int.{ℤ, pos, pos_part, add_ℤ, sub_ℕ, ltb_ℤ, times_million}
use riskforge.Domain.{QuoteRequest, QuoteResult, CoverageLine}
use riskforge.Domain.Errors.{Error, sentinel, err_carrier_unavailable}
use riskforge.Adapter.Registry.{Adapter, AdapterFunc, register, seconds}

pub record MockRequest : Type 0 where
  pub request_id : String
  pub coverage_lines : List CoverageLine

pub record MockResponse : Type 0 where
  pub carrier_id : String
  pub premium_cents : ℤ
  pub expires_in_seconds : ℤ

pub record MockConfig (F : Type 0) : Type 0 where
  pub base_latency : ℤ
  pub jitter_ms : ℤ
  pub failure_rate : F

pub record MockCarrier (F : Type 0) : Type 0 where
  pub id : String
  pub cfg : MockConfig F

abbrev pub new_mock_carrier : {F : Type 0} → String → MockConfig F → MockCarrier F
new_mock_carrier id cfg = record { id = id; cfg = cfg }

-- `intn` is `rand.Intn`, below its positive argument. `sleep` waits for a timer and gives the error of
-- the context if that ends first.
pub record Simulation (F W : Type 0) : Type 0 where
  pub lt : F → F → Bool
  pub zero : F
  pub clock : W → ℕ
  pub intn : ℕ → W → W × ℕ
  pub random : W → W × F
  pub sleep : ℤ → W → W × Option Error
  pub intn_below : (n : ℕ) (w : W) → 0 < n → (intn n w).1 < n

unfoldable pub mock_request : {F : Type 0} → QuoteRequest F → MockRequest
mock_request q = record { request_id = q.request_id; coverage_lines = q.coverage_lines }

module _ {F W : Type 0} (sim : Simulation F W) where
  -- A random number of milliseconds between `- jitter_ms` and `jitter_ms`.
  unfoldable pub jitter : ℤ → W → W × ℤ
  jitter jitter_ms w =
      if ltb_ℤ (pos 0) jitter_ms
      then (let (w', n) = sim.intn (pos_part jitter_ms * 2 + 1) w in
          (w', sub_ℕ n (pos_part jitter_ms)))
      else (w, pos 0)

  unfoldable pub latency : MockConfig F → W → W × ℤ
  unfolding jitter
  latency cfg w =
      let (w', ms) = jitter cfg.jitter_ms w in
      let total = add_ℤ cfg.base_latency (times_million ms) in
      (w', if ltb_ℤ total (pos 0) then pos 0 else total)

  -- `rand.Float64` is only asked when there is a rate.
  unfoldable pub injects_failure : F → W → W × Bool
  injects_failure rate w =
      if sim.lt sim.zero rate
      then (let (w', x) = sim.random w in (w', sim.lt x rate))
      else (w, false)

  unfoldable pub respond : String → W → W × MockResponse
  respond id w =
      let (w', n) = sim.intn 50_000 w in
      (
        w',
        record {
          carrier_id = id;
          premium_cents = pos (len id * 10_000 + n);
          expires_in_seconds = pos 300;
        },
      )

  -- The rest of a call, when the timer or the context has ended the wait.
  unfoldable pub after_wait : MockCarrier F → Option Error → W → W × (Error ⊎ MockResponse)
  unfolding injects_failure respond
  after_wait m (some e) w = (w, inl e)
  after_wait m none w =
      let (w', failed) = injects_failure m.cfg.failure_rate w in
      let (w'', resp) = respond m.id w' in
      if failed then (w', inl (sentinel err_carrier_unavailable)) else (w'', inr resp)

  unfoldable pub call : MockCarrier F → MockRequest → W → W × (Error ⊎ MockResponse)
  unfolding latency after_wait
  call m req w =
      let (w', wait) = latency m.cfg w in
      let (w'', stopped) = sim.sleep wait w' in after_wait m stopped w''

  unfoldable pub mock_result : W → MockResponse → String → QuoteResult
  mock_result w r carrier_id = record {
    request_id = "";
    carrier_id = carrier_id;
    premium = record { amount = r.premium_cents; currency = "USD" };
    expires_at = pos_part (add_ℤ (pos (sim.clock w)) (seconds r.expires_in_seconds));
    carrier_ref = "";
    latency = pos 0;
    is_hedged = false;
  }

  unfoldable pub mock_adapter : Adapter F MockRequest MockResponse W
  unfolding mock_request mock_result
  mock_adapter = record {
    to_carrier_request = λ q. inr (mock_request q);
    from_carrier_response = λ w r carrier_id. inr (mock_result w r carrier_id);
  }

  unfoldable pub register_mock_carrier : MockCarrier F → AdapterFunc F W
  unfolding register mock_adapter call
  register_mock_carrier m = register mock_adapter (call m) m.id

  jitter_near : (j : ℕ) (w : W) → (n : ℕ) × (n ≤ j * 2) × ((jitter (pos j) w).1 ≡ sub_ℕ n j)
  unfolding jitter
  jitter_near j w = elim (Bool-cases (ltb_ℤ (pos 0) (pos j))) [
    | inl e ↦ rw e ((sim.intn (j * 2 + 1) w).1, ground (arith, sim.intn_below (j * 2 + 1) w), refl)
    | inr e ↦ rw e (0, omega arith, ground arith)
  ]

  delayed :
      (b n j : ℕ)
      → (let total = add_ℤ (pos b) (times_million (sub_ℕ n j)) in
          (if ltb_ℤ total (pos 0) then pos 0 else total) ≡ pos (b + n * 1_000_000 - j * 1_000_000))
  delayed b n j = ground arith

  -- The wait of a call: the base latency, give or take the jitter.
  latency_near :
      (cfg : MockConfig F) (b j : ℕ) (w : W)
      → cfg.base_latency ≡ pos b
      → cfg.jitter_ms ≡ pos j
      → (n : ℕ) × ((latency cfg w).1 ≡ pos n) × (b ≤ n + j * 1_000_000) × (n ≤ b + j * 1_000_000)
  unfolding latency
  latency_near cfg b j w base spread =
      let (n, few, e) = jitter_near j w in
      rw (base, spread, e)
        (b + n * 1_000_000 - j * 1_000_000, delayed b n j, omega (arith, few), omega (arith, few))

  -- A quote of the carrier for a premium in its range, that expires five minutes after the moment `w`.
  abbrev pub IsMockQuote : String → W → QuoteResult → Type 0
  IsMockQuote id w q =
      (q.carrier_id ≡ id)
      × (q.premium.currency ≡ "USD")
      × ((p : ℕ) × (q.premium.amount ≡ pos p)
          × (len id * 10_000 ≤ p)
          × (p < len id * 10_000 + 50_000))
      × (q.expires_at ≡ sim.clock w + 300_000_000_000)

  -- What a call says, if the timer or the context has ended its wait.
  abbrev pub IsMockAnswer : MockCarrier F → Option Error → W × (Error ⊎ QuoteResult) → Type 0
  IsMockAnswer m (some e) (w, answer) = answer ≡ inl e
  IsMockAnswer m none (w, inl e) =
      (e ≡ sentinel err_carrier_unavailable) × (sim.lt sim.zero m.cfg.failure_rate ≡ true)
  IsMockAnswer m none (w, inr q) = IsMockQuote m.id w q

  respond_quote :
      (id : String) (w : W)
      → IsMockQuote id (respond id w).0 (mock_result (respond id w).0 (respond id w).1 id)
  unfolding respond mock_result
  respond_quote id w = (
    refl,
    refl,
    (
      (len id * 10_000 + (sim.intn 50_000 w).1),
      refl,
      omega arith,
      omega (arith, sim.intn_below 50_000 w (omega arith)),
    ),
    ground arith,
  )

  abbrev convert : MockCarrier F → W × (Error ⊎ MockResponse) → W × (Error ⊎ QuoteResult)
  convert m (w, inl e) = (w, inl e)
  convert m (w, inr r) = (w, inr (mock_result w r m.id))

  register-call :
      (m : MockCarrier F) (q : QuoteRequest F) (w : W)
      → register_mock_carrier m q w ≡ convert m (call m (mock_request q) w)
  unfolding register_mock_carrier
  register-call m q w = ground arith

  injects_failure_rated :
      (rate : F) (w : W) → (injects_failure rate w).1 ≡ true → sim.lt sim.zero rate ≡ true
  unfolding injects_failure
  injects_failure_rated rate w h = ground arith

  after_wait_answer :
      (m : MockCarrier F) (stopped : Option Error) (w : W)
      → IsMockAnswer m stopped (convert m (after_wait m stopped w))
  unfolding after_wait
  after_wait_answer m (some e) w = refl
  after_wait_answer m none w = elim (Bool-cases (injects_failure m.cfg.failure_rate w).1) [
    | inl e ↦ rw e (refl, injects_failure_rated m.cfg.failure_rate w e)
    | inr e ↦ rw e (respond_quote m.id (injects_failure m.cfg.failure_rate w).0)
  ]

  -- The function registered for a simulated carrier waits for the base latency give or take the jitter.
  -- If the context ends first, its error is the answer. Otherwise the answer is ErrCarrierUnavailable, and
  -- this only if the carrier has a failure rate, or a quote of the carrier in USD that expires five
  -- minutes later, with a premium of 10000 cents for each byte of the carrier's identifier and less than
  -- 50000 more.
  pub register_mock_carrier-IsMockAnswer :
      (m : MockCarrier F) (q : QuoteRequest F) (w : W) (b j : ℕ)
      → m.cfg.base_latency ≡ pos b
      → m.cfg.jitter_ms ≡ pos j
      → (let (w', wait) = latency m.cfg w in
          ((n : ℕ) × (wait ≡ pos n) × (b ≤ n + j * 1_000_000) × (n ≤ b + j * 1_000_000))
          × IsMockAnswer m (sim.sleep wait w').1 (register_mock_carrier m q w))
  unfolding call
  register_mock_carrier-IsMockAnswer m q w b j base spread = (
    latency_near m.cfg b j w base spread,
    subst (IsMockAnswer m (sim.sleep (latency m.cfg w).1 (latency m.cfg w).0).1)
        (sym (register-call m q w))
        (after_wait_answer m (sim.sleep (latency m.cfg w).1 (latency m.cfg w).0).1
          (sim.sleep (latency m.cfg w).1 (latency m.cfg w).0).0),
  )
