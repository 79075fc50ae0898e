-- ===== src/RateLimiter.antt =====
-- `Limiter` of internal/ratelimiter/limiter.go, over the limiter of golang.org/x/time/rate, which is a
-- parameter: `Inner`, made by `new_limiter`, with its `Wait` under the context of the caller and its
-- `Allow`. `rejections` counts the calls of RecordRateLimitRejection.
use riskforge.Prelude.{ℕ, ◌+◌, String, Bool, ◌||◌, Option, none, some, if◌then◌else◌}
use riskforge.Prelude.Int.{ℤ}
use riskforge.Domain.{RateLimitConfig}
use riskforge.Domain.Errors.{
  Error, sentinel, errors_is, canceled, deadline_exceeded, err_rate_limit_exceeded,
}

pub record TokenBucket (F : Type 0) : Type 1 where
  pub Inner : Type 0
  pub new_limiter : F → ℤ → Inner
  pub inner_wait : Inner → Inner × Option Error
  pub allow : Inner → Inner × Bool

module _ {F : Type 0} (bucket : TokenBucket F) where
  open bucket use {Inner, new_limiter, inner_wait, allow}

  pub record Limiter : Type 0 where
    pub inner : Inner
    pub carrier_id : String
    pub rejections : ℕ

  unfoldable pub new : String → RateLimitConfig F → Limiter
  new carrier_id cfg = record {
    inner = new_limiter cfg.tokens_per_second cfg.burst;
    carrier_id = carrier_id;
    rejections = 0;
  }

  unfoldable pub wait : Limiter → Limiter × Option Error
  wait l =
      let (inner, failure) = inner_wait l.inner in
      elim failure [
        | none ↦ (record l { inner = inner }, none)
        | some e ↦
            if errors_is e canceled || errors_is e deadline_exceeded
            then (
              record l { inner = inner; rejections = l.rejections + 1 },
              some (sentinel err_rate_limit_exceeded),
            )
            else (record l { inner = inner }, some e)
      ]

  unfoldable pub try_acquire : Limiter → Limiter × Bool
  try_acquire l = let (inner, granted) = allow l.inner in (record l { inner = inner }, granted)
