-- ===== src/Spanner/Tests.antt =====
-- The theorems on the quote repository at concrete inputs: a database with room for one quote.
use riskforge.Spanner.Slot.{Slot, slot_client, sample_quote, empty_slot}
use riskforge.Prelude.{◌≡◌, ◌↔◌, refl, List, [], ◌∷◌, some, inl, inr, arith, OneOf}
use riskforge.Domain.{QuoteResult}
use riskforge.Orchestrator.Collect.{first, Distinct}
use riskforge.Spanner.Quotes.{quote_row, save, find_by_request_id, stored, find_by_request_id-save}

abbrev saved : Slot
saved = (save slot_client "c:r" (sample_quote ∷ []) empty_slot).0

find_by_request_id-save_example :
    (cached : List QuoteResult) × ((find_by_request_id slot_client "c:r" saved).1
      ≡ inr (some cached))
    × Distinct cached
    × ((c : QuoteResult)
        → (OneOf c cached × (c.carrier_id ≡ "alpha")) ↔ (c ≡ stored "c:r" sample_quote))
unfolding save quote_row first
find_by_request_id-save_example =
    find_by_request_id-save slot_client "c:r" (sample_quote ∷ []) empty_slot
      (quote_row "c:r" sample_quote ∷ []) sample_quote (refl, tt) refl refl (omega arith) (inl refl)
      (omega arith)
