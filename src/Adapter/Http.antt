-- ===== src/Adapter/Http.antt =====
-- `HTTPCarrier` of internal/adapter/http_carrier.go. What `client.Do` and the decoder do with a
-- request is a function on a state `W` of its own, as is the wait between two attempts, which a
-- cancelled context ends with an error. Delays do not overflow int64.
use riskforge.Prelude.{
  ℕ, zero, suc, ◌*◌, String, Bool, ◌&&◌, Option, none, some, ◌⊎◌, inl, inr, leb, ltb, if◌then◌else◌,
}
use riskforge.Prelude.Int.{ℤ, pos, leb_ℤ, pos_part}
use riskforge.Domain.Errors.{Error, other, wrap}

pub record HttpCarrierConfig : Type 0 where
  pub base_url : String
  pub api_key : String
  pub max_retries : ℤ
  pub retry_delay : ℤ
  pub timeout : ℤ

unfoldable pub with_defaults : HttpCarrierConfig → HttpCarrierConfig
with_defaults c = record c {
  max_retries = if leb_ℤ c.max_retries (pos 0) then pos 3 else c.max_retries;
  retry_delay = if leb_ℤ c.retry_delay (pos 0) then pos 100_000_000 else c.retry_delay;
  timeout = if leb_ℤ c.timeout (pos 0) then pos 5_000_000_000 else c.timeout;
}

-- What becomes of one request: it cannot be built, it gets no answer, or it is answered with a
-- status, the beginning of the body as text, and what the decoder makes of the body.
pub data Reply (Out : Type 0) : Type 0 where
  not_built unreachable : Error → Reply Out
  answered : (status : ℕ) → (text : String) → (decoded : Error ⊎ Out) → Reply Out

-- `doOnce` on the reply: the status, which is 0 without an answer, and the result.
unfoldable pub do_once : {Out : Type 0} → Reply Out → ℕ × (Error ⊎ Out)
do_once (not_built e) = (0, inl (wrap "build request" e))
do_once (unreachable e) = (0, inl (wrap "do request" e))
do_once (answered status text decoded) =
    if leb 400 status then (status, inl (other text)) else elim decoded [
      | inl e ↦ (status, inl (wrap "decode response" e))
      | inr out ↦ (status, inr out)
    ]

-- `statusCode >= 400 && statusCode < 500`.
abbrev pub is_client_error : ℕ → Bool
is_client_error status = leb 400 status && ltb status 500

abbrev pub all_failed : {Out : Type 0} → Option Error → Error ⊎ Out
all_failed none = inl (other "all attempts failed")
all_failed (some e) = inl (wrap "all attempts failed" e)

module _ {W Out : Type 0} (send : W → W × Reply Out) (wait : ℕ → W → W × Option Error) where
  -- Before the first attempt there is no wait; every wait doubles the delay.
  unfoldable pub pause : ℕ → ℕ → W → W × Option Error × ℕ
  pause zero delay w = (w, none, delay)
  pause (suc attempt) delay w = let (w', stopped) = wait delay w in (w', stopped, delay * 2)

  -- The loop, with `left` attempts left.
  unfoldable pub attempts : ℕ → ℕ → ℕ → Option Error → W → W × (Error ⊎ Out)
  unfolding pause do_once
  attempts zero attempt delay last_err w = (w, all_failed last_err)
  attempts (suc left) attempt delay last_err w =
      let (w', stopped, delay') = pause attempt delay w in
      elim stopped [
        | some e ↦ (w', inl (wrap "context cancelled before retry" e))
        | none ↦
            let (w'', reply) = send w' in
            let (status, result) = do_once reply in
            elim result [
              | inr out ↦ (w'', inr out)
              | inl e ↦
                  let rest = attempts left (suc attempt) delay' (some e) w'' in
                  if is_client_error status
                  then (w'', inl (wrap "non-retryable status" e))
                  else rest
            ]
      ]

  -- `Post` on the resolved configuration, after the body has been encoded.
  unfoldable pub post : HttpCarrierConfig → W → W × (Error ⊎ Out)
  unfolding attempts
  post cfg w = attempts (suc (pos_part cfg.max_retries)) 0 (pos_part cfg.retry_delay) none w
