-- ===== src/Spanner/Slot.antt =====
-- A database with room for one quote: an instance of what is assumed of the Spanner client.
use text.Mathlib.Text.{◌==◌ as same_text}
use text.Mathlib.TextEquality.{eq_iff}
use text.Mathlib.TextPositions.{eq_refl}
use riskforge.Prelude.{
  ℕ, ◌≡◌, ◌<◌, ◌↔◌, refl, String, Bool, true, ◌&&◌, List, [], ◌∷◌, Option, none, some, ◌⊎◌, inr,
  arith, inl, Bool-cases, ltb, leb, OneOf, if◌then◌else◌, subst,
}
use riskforge.Prelude.Int.{pos}
use riskforge.Domain.{QuoteResult}
use riskforge.Domain.Errors.{Error, other}
use riskforge.Spanner.Quotes.{QuoteRow, OnceEach, last_write, SpannerClient}

pub record Slot : Type 0 where
  pub now : ℕ
  pub content : Option QuoteRow

abbrev pub has_key : String → String → QuoteRow → Bool
has_key rid cid r = same_text r.request_id rid && same_text r.carrier_id cid

abbrev pub keyed : String → String → Option QuoteRow → Option QuoteRow
keyed rid cid none = none
keyed rid cid (some r) = if has_key rid cid r then some r else none

abbrev pub write_one : List QuoteRow → ℕ → Option QuoteRow → Slot × Option Error
write_one (m ∷ []) now none = (record { now = now; content = some m }, none)
write_one ms now content = (record { now = now; content = content }, some (other "full"))

abbrev pub live_rows : String → ℕ → Option QuoteRow → List QuoteRow
live_rows rid now none = []
live_rows rid now (some r) =
    if same_text r.request_id rid && ltb now r.expires_at then r ∷ [] else []

pub write_one-keyed :
    (ms : List QuoteRow) (now : ℕ) (content : Option QuoteRow) (rid cid : String)
    → (write_one ms now content).1 ≡ none
    → keyed rid cid (write_one ms now content).0.content
      ≡ last_write rid cid ms (keyed rid cid content)
write_one-keyed (m ∷ []) now none rid cid h = refl
write_one-keyed (m ∷ []) now (some r) rid cid h = cc
write_one-keyed [] now none rid cid h = cc
write_one-keyed [] now (some r) rid cid h = cc
write_one-keyed (m ∷ n ∷ ms) now none rid cid h = cc
write_one-keyed (m ∷ n ∷ ms) now (some r) rid cid h = cc

live_rows-keyed :
    (rid : String) (now : ℕ) (content : Option QuoteRow) (r : QuoteRow)
    → OneOf r (live_rows rid now content)
      ↔ ((r.request_id ≡ rid) × (keyed rid r.carrier_id content ≡ some r) × (now < r.expires_at))
live_rows-keyed rid now none r = ((λ m. absurd m), λ h. cc (h.1))
live_rows-keyed rid now (some x) r = ground (
  arith,
  eq_iff x.request_id rid,
  eq_iff x.carrier_id r.carrier_id,
  eq_refl rid,
  eq_refl r.carrier_id,
)

pub rows-injective :
    {A : Type 0} (xs ys : List A) → Path (Error ⊎ List A) (inr xs) (inr ys) → xs ≡ ys
rows-injective xs ys h = cc

pub slot_rows :
    (rid : String) (w : Slot) (rs : List QuoteRow) (r : QuoteRow)
    → Path (Error ⊎ List QuoteRow) (inr (live_rows rid w.now w.content)) (inr rs)
    → OneOf r rs ↔ (
        (r.request_id ≡ rid) × (keyed rid r.carrier_id w.content ≡ some r) × (w.now < r.expires_at))
slot_rows rid w rs r h =
    subst
      (λ (l : List QuoteRow). OneOf r l ↔ (
        (r.request_id ≡ rid)
        × (keyed rid r.carrier_id w.content ≡ some r)
        × (w.now < r.expires_at)))
      (rows-injective (live_rows rid w.now w.content) rs h) (live_rows-keyed rid w.now w.content r)

live_rows-OnceEach :
    (rid : String) (now : ℕ) (content : Option QuoteRow) → OnceEach (live_rows rid now content)
live_rows-OnceEach rid now none = tt
live_rows-OnceEach rid now (some r) =
    elim (Bool-cases (same_text r.request_id rid && ltb now r.expires_at)) [
      | inl e ↦ rw e (refl, tt)
      | inr e ↦ rw e tt
    ]

pub slot_once :
    (rid : String) (w : Slot) (rs : List QuoteRow)
    → Path (Error ⊎ List QuoteRow) (inr (live_rows rid w.now w.content)) (inr rs)
    → OnceEach rs
slot_once rid w rs h =
    subst OnceEach (rows-injective (live_rows rid w.now w.content) rs h)
      (live_rows-OnceEach rid w.now w.content)

abbrev pub drop_expired : Slot → Option QuoteRow → Slot × (Error ⊎ ℕ)
drop_expired w none = (w, inr 0)
drop_expired w (some r) =
    if leb r.expires_at w.now then (record w { content = none }, inr 1) else (w, inr 0)

abbrev pub slot_client : SpannerClient Slot
slot_client = record {
  clock = λ w. w.now;
  row = λ rid cid w. keyed rid cid w.content;
  apply = λ ms w. write_one ms w.now w.content;
  find = λ rid w. (w, inr (live_rows rid w.now w.content));
  delete_expired = λ w. drop_expired w w.content;
  apply_row = λ ms w rid cid h. write_one-keyed ms w.now w.content rid cid h;
  find_rows = λ rid w rs r h few. slot_rows rid w rs r h;
  find_once = λ rid w rs h. slot_once rid w rs h;
}

abbrev pub sample_quote : QuoteResult
sample_quote = record {
  request_id = "r";
  carrier_id = "alpha";
  premium = record { amount = pos 5000; currency = "USD" };
  expires_at = 90;
  carrier_ref = "ref";
  latency = pos 7_500_000;
  is_hedged = true;
}

abbrev pub empty_slot : Slot
empty_slot = record { now = 10; content = none }
