-- ===== src/Orchestrator/CacheKey.antt =====
-- `scopedKey` of internal/orchestrator/orchestrator.go, the key of the cache and of the singleflight
-- group.
use Prim.Native.Char.{Char, code}
use Prim.Native.String
use text.Mathlib.Text.{◌==◌ as same_text}
use text.Mathlib.TextEquality.{eq_iff}
use text.Mathlib.TextLemmas.{
  nil-append, cons-append, cons-eq-cons, append_assoc, append_cancel_left, append-eq-nil_iff,
}
use riskforge.Prelude.{
  Bool-cases, inl, inr, ◌↔◌, ap₂, ◌≡◌, ◌≢◌, refl, sym, ap, ◌∙◌, String, if◌then◌else◌,
}
use riskforge.Domain.{QuoteRequest}

unfoldable pub key_of : String → String → String
key_of client_id request_id =
    if same_text client_id ""
    then request_id
    else String.◌++◌ (String.◌++◌ client_id ":") request_id

unfoldable pub scoped_key : {F : Type 0} → QuoteRequest F → String
unfolding key_of
scoped_key req = key_of req.client_id req.request_id

abbrev pub NoColon : String → Type 0
NoColon String.[] = Unit
NoColon (String.◌∷◌ c s) = (code c ≢ b':') × NoColon s

-- The key of a client that is not empty, by recursion on its text.
abbrev joined : String → String → String
joined String.[] r = String.◌++◌ ":" r
joined (String.◌∷◌ c a) r = String.◌∷◌ c (joined a r)

append-joined : (a r : String) → String.◌++◌ (String.◌++◌ a ":") r ≡ joined a r
append-joined String.[] r = rw (nil-append ":") refl
append-joined (String.◌∷◌ c a) r =
    rw (cons-append c a ":", cons-append c (String.◌++◌ a ":") r)
      (ap (String.◌∷◌ c) (append-joined a r))

colon_cons :
    (r : String) (c : Char) (s : String) → String.◌++◌ ":" r ≡ String.◌∷◌ c s → code c ≡ b':'
colon_cons r c s h = ap code (sym (cons-eq-cons.0 (sym (cons-append _ String.[] r) ∙ h)).0)

joined_injective :
    (a b r q : String) → NoColon a → NoColon b → joined a r ≡ joined b q → (a ≡ b) × (r ≡ q)
joined_injective String.[] String.[] r q ha hb h = (refl, append_cancel_left ":" r q h)
joined_injective String.[] (String.◌∷◌ d b) r q ha (hd, hb) h =
    absurd (hd (colon_cons r d (joined b q) h))
joined_injective (String.◌∷◌ c a) String.[] r q (hc, ha) hb h =
    absurd (hc (colon_cons q c (joined a r) (sym h)))
joined_injective (String.◌∷◌ c a) (String.◌∷◌ d b) r q (hc, ha) (hd, hb) h =
    let (e, t) = cons-eq-cons.0 h in
    let (u, v) = joined_injective a b r q ha hb t in (ap₂ String.◌∷◌ e u, v)

key_of-joined : (c r : String) → c ≢ "" → key_of c r ≡ joined c r
unfolding key_of
key_of-joined c r ne = elim (Bool-cases (same_text c "")) [
  | inl e ↦ absurd (ne ((eq_iff c "").0 e))
  | inr e ↦ rw e (append-joined c r)
]

key_of_nonempty : (c r : String) → c ≢ "" → key_of c r ≡ String.◌++◌ (String.◌++◌ c ":") r
key_of_nonempty c r ne = key_of-joined c r ne ∙ sym (append-joined c r)

key_of_shift :
    (a b r : String)
    → a ≢ ""
    → key_of a (String.◌++◌ (String.◌++◌ b ":") r) ≡ key_of (String.◌++◌ (String.◌++◌ a ":") b) r
key_of_shift a b r na =
    key_of_nonempty a (String.◌++◌ (String.◌++◌ b ":") r) na
    ∙ (simp append_assoc)
    ∙ sym (
        key_of_nonempty (String.◌++◌ (String.◌++◌ a ":") b) r
          (λ e. na (append-eq-nil_iff.0 (append-eq-nil_iff.0 e).0).0))

-- Two requests of authenticated clients whose identifiers hold no colon have the same key exactly
-- when the client and the request identifier are the same.
pub scoped_key-injective :
    {F : Type 0} (x y : QuoteRequest F)
    → x.client_id ≢ ""
    → y.client_id ≢ ""
    → NoColon x.client_id
    → NoColon y.client_id
    → (scoped_key x ≡ scoped_key y) ↔ ((x.client_id ≡ y.client_id) × (x.request_id ≡ y.request_id))
unfolding scoped_key
scoped_key-injective x y ex ey nx ny = (
  λ h. joined_injective x.client_id y.client_id x.request_id y.request_id nx ny (
      sym (key_of-joined x.client_id x.request_id ex)
      ∙ h
      ∙ key_of-joined y.client_id y.request_id ey),
  λ h. ap₂ key_of h.0 h.1,
)

-- A colon inside the identifiers makes keys of different requests equal: the part of a client
-- identifier behind a colon can as well be the beginning of a request identifier.
pub scoped_key_collision :
    {F : Type 0} (x y : QuoteRequest F) (a b r : String)
    → a ≢ ""
    → x.client_id ≡ a
    → x.request_id ≡ String.◌++◌ (String.◌++◌ b ":") r
    → y.client_id ≡ String.◌++◌ (String.◌++◌ a ":") b
    → y.request_id ≡ r
    → scoped_key x ≡ scoped_key y
unfolding scoped_key
scoped_key_collision x y a b r na xc xr yc yr =
    ap₂ key_of xc xr ∙ key_of_shift a b r na ∙ sym (ap₂ key_of yc yr)
