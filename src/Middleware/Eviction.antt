-- ===== src/Middleware/Eviction.antt =====
-- `startCleanup` of internal/middleware/auth.go: the sweeps that evict idle addresses from the limiter of
-- authentication failures. A sweep and a request do not overlap.
pub mod Sweeps
use text.Mathlib.Text.{◌==◌ as same_text}
use text.Mathlib.TextEquality.{eq_iff}
use text.Mathlib.TextPositions.{eq_refl}
use riskforge.Prelude.{
  ℕ, ◌+◌, ◌<◌, ◌≤◌, ◌≡◌, refl, sym, ap, ap₂, subst, ◌∙◌, String, Bool, true, false, List, [], ◌∷◌,
  Option, none, some, ◌⊎◌, inl, inr, arith, OneOf, if◌then◌else◌, Dict, Entry, read, write, erase,
  read-write, read-erase, Bool-cases, Option-cases,
}
use riskforge.Prelude.Int.{ℤ, pos, ltb_ℤ, sub_ℕ}
use riskforge.Middleware.Auth.{
  Limiting, AuthFailureLimiter, or_fresh, get_or_create, is_exhausted, try_record_failure,
}

module _ (limiting : Limiting) where
  open limiting use {Limiter, fresh, is_spent, allow}

  -- The function that is given to `Range`.
  abbrev pub evict_entry :
      ℕ → ℤ → Entry ℕ → AuthFailureLimiter limiting → AuthFailureLimiter limiting
  evict_entry now ttl x l =
      if ltb_ℤ ttl (sub_ℕ now x.value)
      then record { ips = erase l.ips x.key; last_seen = erase l.last_seen x.key }
      else l

  unfoldable pub evict_from :
      ℕ → ℤ → Dict ℕ → AuthFailureLimiter limiting → AuthFailureLimiter limiting
  evict_from now ttl [] l = l
  evict_from now ttl (x ∷ xs) l = evict_from now ttl xs (evict_entry now ttl x l)

  unfoldable pub evict : ℕ → ℤ → AuthFailureLimiter limiting → AuthFailureLimiter limiting
  unfolding evict_from
  evict now ttl l = evict_from now ttl l.last_seen l

  -- What happens to the limiter: a request asks whether its address is spent, or records a failure; and
  -- the ticker fires.
  pub data Event : Type 0 where
    asks records : ℕ → String → Event
    sweeps : ℕ → Event

  abbrev pub moment : Event → ℕ
  moment (asks now ip) = now
  moment (records now ip) = now
  moment (sweeps now) = now

  -- The answers to the requests, the first one first.
  unfoldable pub answers : ℤ → List Event → AuthFailureLimiter limiting → List Bool
  unfolding evict
  answers ttl [] l = []
  answers ttl (asks now ip ∷ es) l =
      let (l', spent) = is_exhausted limiting now ip l in spent ∷ answers ttl es l'
  answers ttl (records now ip ∷ es) l =
      let (l', ok) = try_record_failure limiting now ip l in ok ∷ answers ttl es l'
  answers ttl (sweeps now ∷ es) l = answers ttl es (evict now ttl l)

  -- The same events without the sweeps.
  abbrev pub unswept : List Event → List Event
  unswept [] = []
  unswept (asks now ip ∷ es) = asks now ip ∷ unswept es
  unswept (records now ip ∷ es) = records now ip ∷ unswept es
  unswept (sweeps now ∷ es) = unswept es

  -- Time does not run backwards.
  abbrev pub Ordered : ℕ → List Event → Type 0
  Ordered t [] = Unit
  Ordered t (e ∷ es) = (t ≤ moment e) × Ordered (moment e) es

  abbrev pub limiter_of : AuthFailureLimiter limiting → String → Limiter
  limiter_of l ip = or_fresh limiting (read l.ips ip)

  pub limiter_of-asks :
      (now : ℕ) (ip wanted : String) (l : AuthFailureLimiter limiting)
      → limiter_of (is_exhausted limiting now ip l).0 wanted ≡ limiter_of l wanted
  unfolding is_exhausted get_or_create
  limiter_of-asks now ip wanted l = elim (Option-cases (read l.ips ip)) [
    | inl e ↦ ground (arith, read-write l.ips ip wanted fresh, eq_iff ip wanted)
    | inr (lim, e) ↦ ground arith
  ]

  pub limiter_of-records :
      (now : ℕ) (ip wanted : String) (l : AuthFailureLimiter limiting)
      → limiter_of (try_record_failure limiting now ip l).0 wanted
        ≡ (if same_text ip wanted then (allow now (limiter_of l ip)).0 else limiter_of l wanted)
  unfolding try_record_failure get_or_create
  limiter_of-records now ip wanted l = elim (Option-cases (read l.ips ip)) [
    | inl e ↦ ground (
      arith,
      read-write l.ips ip wanted fresh,
      read-write (write l.ips ip fresh) ip wanted (allow now fresh).0,
    )
    | inr (lim, e) ↦ ground (arith, read-write l.ips ip wanted (allow now lim).0)
  ]

  pub asks_answer :
      (now : ℕ) (ip : String) (l : AuthFailureLimiter limiting)
      → (is_exhausted limiting now ip l).1 ≡ is_spent now (limiter_of l ip)
  unfolding is_exhausted get_or_create
  asks_answer now ip l = ground arith

  pub records_answer :
      (now : ℕ) (ip : String) (l : AuthFailureLimiter limiting)
      → (try_record_failure limiting now ip l).1 ≡ (allow now (limiter_of l ip)).1
  unfolding try_record_failure get_or_create
  records_answer now ip l = ground arith
