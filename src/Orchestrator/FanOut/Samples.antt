-- ===== src/Orchestrator/FanOut/Samples.antt =====
-- A fan-out over one carrier, whose hedge has a result to send, and its way to the close.
use riskforge.Prelude.{
  this, total, ◌+◌, ◌*◌, ◌<◌, ◌≤◌, ◌≡◌, refl, ◌⊎◌, inl, inr, true, false, [], ◌∷◌, ◌++◌, arith,
}
use riskforge.Prelude.Int.{pos}
use riskforge.Domain.{QuoteResult}
use riskforge.Orchestrator.FanOut.{
  sending, ended, done, closed, FanOut, load, primary_answers, primary_sends, hedge_fires,
  hedge_answers, hedge_sends, closer_cancels, monitor_returns, monitor_done, closer_closes, start,
  Steps, none_yet, step,
}
use riskforge.Orchestrator.FanOut.Room.{send_never_blocks, close_is_last}
use riskforge.Orchestrator.FanOut.Ending.{CanMove, fan_out_ends}

abbrev quote : QuoteResult
quote = record {
  request_id = "r1";
  carrier_id = "alpha";
  premium = record { amount = pos 900; currency = "USD" };
  expires_at = 0;
  carrier_ref = "";
  latency = pos 0;
  is_hedged = false;
}

abbrev hedge_quote : QuoteResult
hedge_quote = record quote { is_hedged = true }

-- The primary result is in the channel, and the hedge has its own.
abbrev both_answered : FanOut
both_answered = record (start 1 1) {
  primaries = ended ∷ [];
  hedges = sending hedge_quote ∷ [];
  hedged = true ∷ [];
  channel = quote ∷ [];
  sent = quote ∷ [];
}

both_answered-Steps : Steps (start 1 1) 4 both_answered
both_answered-Steps =
    step
      (step (step (step none_yet (primary_answers quote this)) (hedge_fires refl this))
        (hedge_answers quote this))
      (primary_sends quote this (omega arith))

abbrev shut : FanOut
shut = record both_answered {
  hedges = ended ∷ [];
  monitor = done;
  closer = closed;
  channel = quote ∷ hedge_quote ∷ [];
  sent = quote ∷ hedge_quote ∷ [];
}

shut-Steps : Steps (start 1 1) 9 shut
shut-Steps =
    step
      (step
        (step
          (step (step both_answered-Steps (hedge_sends hedge_quote this (omega arith)))
            (closer_cancels refl refl))
          (monitor_returns refl (inr (inl refl))))
        (monitor_done refl refl))
      (closer_closes refl refl)

send_never_blocks_example : 1 < 2
send_never_blocks_example =
    send_never_blocks 1 1 4 both_answered hedge_quote (omega arith) both_answered-Steps
      (inr (ended ∷ [], this))

close_is_last_example :
    (shut.monitor ≡ done)
    × (total load shut.primaries ≡ 0)
    × (total load shut.hedges ≡ 0)
    × (shut.sent ≡ shut.received ++ shut.channel)
close_is_last_example = close_is_last 1 1 9 shut (omega arith) shut-Steps refl

fan_out_ends_example :
    (9 ≤ 3 * 1 + 4 * 1 + 6)
    × (((shut.returned ≡ true) × (shut.received ≡ shut.sent)) ⊎ CanMove shut)
fan_out_ends_example = fan_out_ends 1 1 9 shut (omega arith) (omega arith) shut-Steps
