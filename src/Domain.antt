-- ===== src/Domain.antt =====
-- internal/domain: the value types of quotes, carriers and appetite rules, and the sentinel errors.
-- A float64 is an element of the parameter `F`; a time.Duration is a signed number of nanoseconds
-- (ℤ), a time.Time its Unix nanoseconds (ℕ).
pub mod Errors
use riskforge.Prelude.{ℕ, String, List, Bool}
use riskforge.Prelude.Int.{ℤ}

-- `CoverageLine` is a typed string.
abbrev pub CoverageLine : Type 0
CoverageLine = String

abbrev pub coverage_line_auto : CoverageLine
coverage_line_auto = "auto"

abbrev pub coverage_line_homeowners : CoverageLine
coverage_line_homeowners = "homeowners"

abbrev pub coverage_line_umbrella : CoverageLine
coverage_line_umbrella = "umbrella"

pub record Money : Type 0 where
  pub amount : ℤ
  pub currency : String

pub record QuoteRequest (F : Type 0) : Type 0 where
  pub request_id : String
  pub client_id : String
  pub coverage_lines : List CoverageLine
  pub state : String
  pub class_code : String
  pub estimated_premium : F
  pub timeout : ℤ

pub record QuoteResult : Type 0 where
  pub request_id : String
  pub carrier_id : String
  pub premium : Money
  pub expires_at : ℕ
  pub carrier_ref : String
  pub latency : ℤ
  pub is_hedged : Bool

pub record RateLimitConfig (F : Type 0) : Type 0 where
  pub tokens_per_second : F
  pub burst : ℤ

pub record CarrierConfig (F : Type 0) : Type 0 where
  pub timeout_hint : ℤ
  pub open_timeout : ℤ
  pub failure_threshold : ℤ
  pub success_threshold : ℤ
  pub hedge_multiplier : F
  pub ema_alpha : F
  pub ema_window_size : ℤ
  pub ema_warmup_observations : ℤ
  pub rate_limit : RateLimitConfig F
  pub priority : ℤ

pub record Carrier (F : Type 0) : Type 0 where
  pub id : String
  pub code : String
  pub name : String
  pub is_active : Bool
  pub capabilities : List CoverageLine
  pub config : CarrierConfig F
