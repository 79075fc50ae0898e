-- ===== src/Middleware/Auth.antt =====
-- `RequireAPIKey` of internal/middleware/auth.go. The limiter of an IP is golang.org/x/time/rate's: its
-- type and its operations are parameters. API keys are ASCII, so that eight bytes are eight characters.
use Prim.Native.String
use Prim.Native.String.{len}
use Prim.Native.Char.{code}
use text.Mathlib.Text.{◌==◌ as same_text}
use text.Mathlib.TextEquality.{eq_iff, Char-path}
use text.Mathlib.TextPositions.{len-append, eq_refl}
use text.Mathlib.TextLemmas.{nil-append, cons-append}
use riskforge.Prelude.{
  ℕ, zero, suc, ◌≡◌, refl, sym, ap, ◌∙◌, String, Bool, false, ◌||◌, List, [], ◌∷◌, Option, none,
  some, arith, any, ◌==◌, ◌+◌, ltb, if◌then◌else◌, Dict, read, write, read-write, Bool-cases,
  Option-cases, inl, inr,
}

abbrev take_text : ℕ → String → String
take_text zero s = ""
take_text (suc n) String.[] = ""
take_text (suc n) (String.◌∷◌ c s) = String.◌∷◌ c (take_text n s)

-- The identifier of a key: its first eight characters and dots, if it is longer.
unfoldable pub key_id : String → String
key_id k = if ltb 8 (len k) then String.◌++◌ (take_text 8 k) "..." else k

-- The text behind a prefix.
unfoldable pub without_prefix : String → String → Option String
without_prefix String.[] s = some s
without_prefix (String.◌∷◌ c p) String.[] = none
without_prefix (String.◌∷◌ c p) (String.◌∷◌ d s) =
    let rest = without_prefix p s in if code c == code d then rest else none

-- `strings.TrimPrefix`.
unfoldable pub trim_prefix : String → String → String
unfolding without_prefix
trim_prefix prefix s = elim (without_prefix prefix s) [ none ↦ s | some rest ↦ rest ]

-- The loop over all keys: the identifier of the last one that is equal to the token.
unfoldable pub match_key : String → Option String → List String → Option String
match_key token found [] = found
match_key token found (k ∷ ks) =
    match_key token (if same_text token k then some (key_id k) else found) ks

pub record HttpRequest : Type 0 where
  pub path : String
  pub remote_addr : String
  pub remote_host : String  -- what `net.SplitHostPort` makes of it, "" on an error
  pub authorization : String

pub data AuthResponse (R : Type 0) : Type 0 where
  unauthorized too_many_requests : AuthResponse R
  served : R → AuthResponse R

abbrev pub client_ip : HttpRequest → String
client_ip r = if same_text r.remote_host "" then r.remote_addr else r.remote_host

-- The rate limiter of one IP: a new one, `Tokens() < 1`, and `Allow()`, at a time.
pub record Limiting : Type 1 where
  pub Limiter : Type 0
  pub fresh : Limiter
  pub is_spent : ℕ → Limiter → Bool
  pub allow : ℕ → Limiter → Limiter × Bool

module _ (limiting : Limiting) where
  open limiting use {Limiter, fresh, is_spent, allow}

  pub record AuthFailureLimiter : Type 0 where
    pub ips : Dict Limiter
    pub last_seen : Dict ℕ

  abbrev pub or_fresh : Option Limiter → Limiter
  or_fresh none = fresh
  or_fresh (some l) = l

  unfoldable pub get_or_create : ℕ → String → AuthFailureLimiter → AuthFailureLimiter × Limiter
  get_or_create now ip l =
      let seen = write l.last_seen ip now in
      elim (read l.ips ip) [
        | some lim ↦ (record l { last_seen = seen }, lim)
        | none ↦ (record { ips = write l.ips ip fresh; last_seen = seen }, fresh)
      ]

  unfoldable pub is_exhausted : ℕ → String → AuthFailureLimiter → AuthFailureLimiter × Bool
  unfolding get_or_create
  is_exhausted now ip l = let (l', lim) = get_or_create now ip l in (l', is_spent now lim)

  -- `Allow` changes the limiter that the map holds.
  unfoldable pub try_record_failure : ℕ → String → AuthFailureLimiter → AuthFailureLimiter × Bool
  unfolding get_or_create
  try_record_failure now ip l =
      let (l', lim) = get_or_create now ip l in
      let (lim', ok) = allow now lim in (record l' { ips = write l'.ips ip lim' }, ok)

  -- A recorded failure is charged to the limiter of its address, which begins fresh, and to no other.
  pub read-try_record_failure :
      (now : ℕ) (ip wanted : String) (l : AuthFailureLimiter)
      → read (try_record_failure now ip l).0.ips wanted ≡ (
          if same_text ip wanted
          then some (allow now (or_fresh (read l.ips ip))).0
          else read l.ips wanted)
  unfolding try_record_failure
  read-try_record_failure now ip wanted l = elim (Option-cases (read l.ips ip)) [
    | inl e ↦ ground (
      arith,
      read-write l.ips ip wanted fresh,
      read-write (write l.ips ip fresh) ip wanted (allow now fresh).0,
    )
    | inr (lim, e) ↦ ground (arith, read-write l.ips ip wanted (allow now lim).0)
  ]

  module _ {W R : Type 0} (next : Option String → W → W × R) (keys skip_paths : List String) where
    abbrev serve : Option String → AuthFailureLimiter → W → AuthFailureLimiter × W × AuthResponse R
    serve client l w = let (w', answer) = next client w in (l, w', served answer)

    abbrev refuse : ℕ → String → AuthFailureLimiter → W → AuthFailureLimiter × W × AuthResponse R
    refuse now ip l w = ((try_record_failure now ip l).0, w, unauthorized)

    -- After the test of the limiter.
    unfoldable pub authenticate :
        ℕ → HttpRequest → AuthFailureLimiter → W → AuthFailureLimiter × W × AuthResponse R
    authenticate now r l w =
        let token = trim_prefix "Bearer " r.authorization in
        if same_text token "" || same_text token r.authorization
        then refuse now (client_ip r) l w
        else elim (match_key token none keys) [
          | none ↦ refuse now (client_ip r) l w
          | some id ↦ serve (some id) l w
        ]

    unfoldable pub require_api_key :
        ℕ → HttpRequest → AuthFailureLimiter → W → AuthFailureLimiter × W × AuthResponse R
    unfolding authenticate
    require_api_key now r l w =
        if any (λ p. same_text p r.path) skip_paths
        then serve none l w
        else (let (l', exhausted) = is_exhausted now (client_ip r) l in
            if exhausted then (l', w, too_many_requests) else authenticate now r l' w)

without_prefix_lem : (p s rest : String) → without_prefix p s ≡ some rest → s ≡ String.◌++◌ p rest
unfolding without_prefix
without_prefix_lem String.[] s rest h = cc (h, nil-append rest)
without_prefix_lem (String.◌∷◌ c p) String.[] rest h = cc
without_prefix_lem (String.◌∷◌ c p) (String.◌∷◌ d s) rest h =
    ground (arith, Char-path c d, without_prefix_lem p s rest, cons-append c p rest)

-- The token behind "Bearer ", if it is not empty.
abbrev pub credential : String → Option String
credential raw = elim (without_prefix "Bearer " raw) [
  | none ↦ none
  | some k ↦ if same_text k "" then none else some k
]

match_key-any :
    (keys : List String) (token : String) (found : Option String)
    → match_key token found keys
      ≡ (if any (λ k. same_text token k) keys then some (key_id token) else found)
unfolding match_key
match_key-any [] token found = refl
match_key-any (k ∷ ks) token found = ground (
  arith,
  match_key-any ks token (if same_text token k then some (key_id k) else found),
  eq_iff token k,
)

len_bearer : (k : String) → len (String.◌++◌ "Bearer " k) ≡ 7 + len k
len_bearer k = len-append "Bearer " k

token_shorter : (k raw : String) → without_prefix "Bearer " raw ≡ some k → same_text k raw ≡ false
token_shorter k raw h = elim (Bool-cases (same_text k raw)) [
  | inl e ↦ absurd (
      omega (
        arith,
        sym (len_bearer k)
            ∙ ap len (sym ((eq_iff k raw).0 e ∙ without_prefix_lem "Bearer " raw k h)),
      ))
  | inr e ↦ e
]

module _ (limiting : Limiting) {W R : Type 0} (next : Option String → W → W × R)
    (keys skip_paths : List String) where
  -- What a client that is not limited may do: with a credential that is one of the keys it is served
  -- under the identifier of that key.
  abbrev pub decide : Option String → W → W × AuthResponse R
  decide none w = (w, unauthorized)
  decide (some k) w =
      if any (λ key. same_text k key) keys
      then (let (w', answer) = next (some (key_id k)) w in (w', served answer))
      else (w, unauthorized)

  -- What the client and the handler see, without the limiter.
  abbrev pub outcome : AuthFailureLimiter limiting × W × AuthResponse R → W × AuthResponse R
  outcome (l, w, answer) = (w, answer)

  authenticate-decide :
      (now : ℕ) (r : HttpRequest) (l : AuthFailureLimiter limiting) (w : W)
      → outcome (authenticate limiting next keys skip_paths now r l w)
        ≡ decide (credential r.authorization) w
  unfolding authenticate trim_prefix
  authenticate-decide now r l w = elim (Option-cases (without_prefix "Bearer " r.authorization)) [
    | inl e ↦ ground (arith, eq_refl r.authorization)
    | inr (k, e) ↦ ground (arith, token_shorter k r.authorization e, match_key-any keys k none)
  ]

  -- Whoever asks, the outcome of a request is decided by these rules, in this order: a path that needs
  -- no key is served without a client; an address that has spent its budget of failures is turned
  -- away with 429; a request whose Authorization header is "Bearer " and one of the keys, which is not
  -- empty, is served under the identifier of that key; any other is turned away with 401. The handler
  -- behind is not called for the requests that are turned away.
  pub require_api_key-decide :
      (now : ℕ) (r : HttpRequest) (l : AuthFailureLimiter limiting) (w : W)
      → outcome (require_api_key limiting next keys skip_paths now r l w) ≡ (
          if any (λ p. same_text p r.path) skip_paths
          then (let (w', answer) = next none w in (w', served answer))
          else if (is_exhausted limiting now (client_ip r) l).1
          then (w, too_many_requests)
          else decide (credential r.authorization) w)
  unfolding require_api_key
  require_api_key-decide now r l w =
      ground (arith, authenticate-decide now r (is_exhausted limiting now (client_ip r) l).0 w)
