-- ===== src/Adapter/Presets.antt =====
-- `NewAlpha`, `NewBeta` and `NewGamma` of internal/adapter/mock_carrier.go. The floats 0.0 and 0.1 are
-- parameters.
use riskforge.Prelude.{ℕ, ◌+◌, ◌*◌, ◌≤◌, ◌≡◌, refl, subst, false, none, ◌⊎◌, inl, inr, arith}
use riskforge.Prelude.Int.{pos}
use riskforge.Domain.{QuoteRequest, QuoteResult}
use riskforge.Domain.Errors.{Error}
use riskforge.Adapter.Mock.{
  MockCarrier, new_mock_carrier, Simulation, latency, register_mock_carrier, IsMockQuote,
  IsMockAnswer, register_mock_carrier-IsMockAnswer,
}

unfoldable pub new_alpha : {F : Type 0} → (zero : F) → MockCarrier F
new_alpha zero =
    new_mock_carrier "alpha"
      (record { base_latency = pos 50_000_000; jitter_ms = pos 10; failure_rate = zero })

unfoldable pub new_beta : {F : Type 0} → (tenth : F) → MockCarrier F
new_beta tenth =
    new_mock_carrier "beta"
      (record { base_latency = pos 200_000_000; jitter_ms = pos 20; failure_rate = tenth })

unfoldable pub new_gamma : {F : Type 0} → (zero : F) → MockCarrier F
new_gamma zero =
    new_mock_carrier "gamma"
      (record { base_latency = pos 800_000_000; jitter_ms = pos 50; failure_rate = zero })

module _ {F W : Type 0} (sim : Simulation F W) where
  reliable :
      (m : MockCarrier F) (p : W × (Error ⊎ QuoteResult))
      → sim.lt sim.zero m.cfg.failure_rate ≡ false
      → IsMockAnswer sim m none p
      → (a : QuoteResult) × (p.1 ≡ inr a) × IsMockQuote sim m.id p.0 a
  reliable m (w, inl e) never (what, rated) = cc (never, rated)
  reliable m (w, inr a) never quoted = (a, refl, quoted)

  -- A carrier gives a quote after a wait between these two, unless the context ends the wait.
  abbrev QuotesWithin : MockCarrier F → ℕ → ℕ → Type 0
  QuotesWithin m least most =
      (q : QuoteRequest F) (w : W)
      → (let (w', wait) = latency sim m.cfg w in
          ((n : ℕ) × (wait ≡ pos n) × (least ≤ n) × (n ≤ most))
          × ((sim.sleep wait w').1 ≡ none
              → (a : QuoteResult) × ((register_mock_carrier sim m q w).1 ≡ inr a)
                × IsMockQuote sim m.id (register_mock_carrier sim m q w).0 a))

  quotes_between :
      (m : MockCarrier F) (b j least most : ℕ)
      → m.cfg.base_latency ≡ pos b
      → m.cfg.jitter_ms ≡ pos j
      → sim.lt sim.zero m.cfg.failure_rate ≡ false
      → least + j * 1_000_000 ≡ b
      → b + j * 1_000_000 ≡ most
      → QuotesWithin m least most
  quotes_between m b j least most base spread never low high q w =
      let ((n, e, l, h), answer) = register_mock_carrier-IsMockAnswer sim m q w b j base spread in
      (
        (n, e, omega (arith, l, low), omega (arith, h, high)),
        λ waited. reliable m (register_mock_carrier sim m q w) never (
            subst (λ stopped. IsMockAnswer sim m stopped (register_mock_carrier sim m q w)) waited
              answer),
      )

  -- Alpha gives a quote after 40 to 60 milliseconds and Gamma after 750 to 850, unless the context ends the wait,
  -- if no float is below itself.
  pub alpha_gamma-QuotesWithin :
      sim.lt sim.zero sim.zero ≡ false
      → QuotesWithin (new_alpha sim.zero) 40_000_000 60_000_000
        × QuotesWithin (new_gamma sim.zero) 750_000_000 850_000_000
  unfolding new_alpha new_gamma
  alpha_gamma-QuotesWithin never = (
    quotes_between (new_alpha sim.zero) 50_000_000 10 40_000_000 60_000_000 refl refl never refl
        refl,
    quotes_between (new_gamma sim.zero) 800_000_000 50 750_000_000 850_000_000 refl refl never refl
        refl,
  )

  -- Beta fails only if the context ends the wait, of 180 to 220 milliseconds, or with ErrCarrierUnavailable.
  pub beta-IsMockAnswer :
      (tenth : F) (q : QuoteRequest F) (w : W)
      → (let (w', wait) = latency sim (new_beta tenth).cfg w in
          ((n : ℕ) × (wait ≡ pos n) × (180_000_000 ≤ n) × (n ≤ 220_000_000))
          × IsMockAnswer sim
              (new_beta tenth)
              (sim.sleep wait w').1
              (register_mock_carrier sim (new_beta tenth) q w))
  unfolding new_beta
  beta-IsMockAnswer tenth q w =
      let ((n, e, l, h), answer) =
        register_mock_carrier-IsMockAnswer sim (new_beta tenth) q w 200_000_000 20 refl refl in
      ((n, e, omega (arith, l), omega (arith, h)), answer)
