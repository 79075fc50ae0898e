-- ===== src/Middleware/Eviction/Sweeps.antt =====
-- About the sweeps of the limiter in internal/middleware/auth.go.
use text.Mathlib.Text.{◌==◌ as same_text}
use text.Mathlib.TextEquality.{eq_iff}
use riskforge.Prelude.{
  ℕ, ◌+◌, ◌<◌, ◌≤◌, ◌≡◌, refl, sym, Unique, write-Unique, erase-Unique, read_entry, ap, ap₂, subst,
  ◌∙◌, String, Bool, List, [], ◌∷◌, some, ◌⊎◌, inl, inr, arith, OneOf, Dict, Entry, read, write,
  read-write, read-erase, Bool-cases,
}
use riskforge.Prelude.Int.{pos, ltb_ℤ, sub_ℕ}
use riskforge.Middleware.Auth.{
  Limiting, AuthFailureLimiter, get_or_create, is_exhausted, try_record_failure,
}
use riskforge.Middleware.Eviction.{
  evict_entry, evict_from, evict, Event, asks, records, sweeps, answers, unswept, Ordered,
  limiter_of, limiter_of-asks, limiter_of-records, asks_answer, records_answer,
}

module _ (limiting : Limiting) where
  open limiting use {Limiter, fresh, is_spent, allow}

  -- What is assumed of a limiter: a use is remembered, and after `ttl` without one it has refilled and is
  -- like a new one.
  pub record Refilling (ttl : ℕ) : Type 0 where
    pub used_at : Limiter → ℕ
    pub fresh_used : used_at fresh ≡ 0
    pub allow_used : (now : ℕ) (lim : Limiter) → used_at lim ≤ now → used_at (allow now lim).0 ≤ now
    pub refilled :
        (now : ℕ) (lim : Limiter)
        → used_at lim + ttl < now
        → (is_spent now lim ≡ is_spent now fresh) × (allow now lim ≡ allow now fresh)

  module _ (ttl : ℕ) (law : Refilling ttl) where
    open law use {used_at, fresh_used, allow_used, refilled}

    abbrev IsIdle : ℕ → Limiter → Type 0
    IsIdle now lim = (lim ≡ fresh) ⊎ (used_at lim + ttl < now)

    -- Two limiters that cannot be told apart from now on.
    abbrev Alike : ℕ → Limiter → Limiter → Type 0
    Alike now lim other = (lim ≡ other) ⊎ (IsIdle now lim × IsIdle now other)

    record IsTracked (now : ℕ) (l : AuthFailureLimiter limiting) : Type 0 where
      unique : Unique l.last_seen
      seen :
          (ip : String) (t : ℕ)
          → read l.last_seen ip ≡ some t
          → used_at (limiter_of limiting l ip) ≤ t
      past : (ip : String) → used_at (limiter_of limiting l ip) ≤ now

    IsIdle-le : (now later : ℕ) (lim : Limiter) → now ≤ later → IsIdle now lim → IsIdle later lim
    IsIdle-le now later lim h (inl e) = inl e
    IsIdle-le now later lim h (inr i) = inr (omega arith)

    Alike-le :
        (now later : ℕ) (lim other : Limiter)
        → now ≤ later
        → Alike now lim other
        → Alike later lim other
    Alike-le now later lim other h (inl e) = inl e
    Alike-le now later lim other h (inr (i, j)) =
        inr (IsIdle-le now later lim h i, IsIdle-le now later other h j)

    IsIdle-allow : (now : ℕ) (lim : Limiter) → IsIdle now lim → allow now lim ≡ allow now fresh
    IsIdle-allow now lim (inl e) = ap (allow now) e
    IsIdle-allow now lim (inr i) = (refilled now lim i).1

    IsIdle-is_spent :
        (now : ℕ) (lim : Limiter) → IsIdle now lim → is_spent now lim ≡ is_spent now fresh
    IsIdle-is_spent now lim (inl e) = ap (is_spent now) e
    IsIdle-is_spent now lim (inr i) = (refilled now lim i).0

    Alike-allow :
        (now : ℕ) (lim other : Limiter) → Alike now lim other → allow now lim ≡ allow now other
    Alike-allow now lim other (inl e) = ap (allow now) e
    Alike-allow now lim other (inr (i, j)) = IsIdle-allow now lim i ∙ sym (IsIdle-allow now other j)

    Alike-is_spent :
        (now : ℕ) (lim other : Limiter)
        → Alike now lim other
        → is_spent now lim ≡ is_spent now other
    Alike-is_spent now lim other (inl e) = ap (is_spent now) e
    Alike-is_spent now lim other (inr (i, j)) =
        IsIdle-is_spent now lim i ∙ sym (IsIdle-is_spent now other j)

    -- What a sweep does to the limiter of an address: nothing, or it is idle and begins anew.
    abbrev Swept : ℕ → AuthFailureLimiter limiting → AuthFailureLimiter limiting → String → Type 0
    Swept now l l' ip =
        (limiter_of limiting l' ip ≡ limiter_of limiting l ip)
        ⊎ ((limiter_of limiting l' ip ≡ fresh) × (used_at (limiter_of limiting l ip) + ttl < now))

    evict_entry-Swept :
        (now : ℕ) (x : Entry ℕ) (l : AuthFailureLimiter limiting)
        → used_at (limiter_of limiting l x.key) ≤ x.value
        → (ip : String) → Swept now l (evict_entry limiting now (pos ttl) x l) ip
    evict_entry-Swept now x l h ip = elim (Bool-cases (ltb_ℤ (pos ttl) (sub_ℕ now x.value))) [
      | inl e ↦ elim (Bool-cases (same_text x.key ip)) [
        | inl same ↦ ground (arith, read-erase l.ips x.key ip, eq_iff x.key ip)
        | inr other ↦ ground (arith, read-erase l.ips x.key ip)
      ]
      | inr e ↦ inl (ground arith)
    ]

    Swept-used :
        (now t : ℕ) (l l' : AuthFailureLimiter limiting) (ip : String)
        → Swept now l l' ip
        → used_at (limiter_of limiting l ip) ≤ t
        → used_at (limiter_of limiting l' ip) ≤ t
    Swept-used now t l l' ip (inl e) h = ground arith
    Swept-used now t l l' ip (inr (e, i)) h = ground (arith, fresh_used)

    Swept-trans :
        (now : ℕ) (l m n : AuthFailureLimiter limiting) (ip : String)
        → Swept now l m ip
        → Swept now m n ip
        → Swept now l n ip
    Swept-trans now l m n ip (inl e) (inl f) = inl (f ∙ e)
    Swept-trans now l m n ip (inl e) (inr (f, i)) = inr (f, ground arith)
    Swept-trans now l m n ip (inr (e, i)) (inl f) = inr (f ∙ e, i)
    Swept-trans now l m n ip (inr (e, i)) (inr (f, j)) = inr (f, i)

    evict_from-Swept :
        (now : ℕ) (xs : Dict ℕ) (l : AuthFailureLimiter limiting)
        → ((x : Entry ℕ) → OneOf x xs → used_at (limiter_of limiting l x.key) ≤ x.value)
        → (ip : String) → Swept now l (evict_from limiting now (pos ttl) xs l) ip
    unfolding evict_from
    evict_from-Swept now [] l h ip = inl refl
    evict_from-Swept now (x ∷ xs) l h ip =
        let l' = evict_entry limiting now (pos ttl) x l in
        let first = evict_entry-Swept now x l (h x (inl refl)) in
        Swept-trans now l l' (evict_from limiting now (pos ttl) xs l') ip (first ip) (
          evict_from-Swept now xs l'
            (λ y m. Swept-used now y.value l l' y.key (first y.key) (h y (inr m))) ip)

    evict_from_seen :
        (now : ℕ) (xs : Dict ℕ) (l : AuthFailureLimiter limiting) (ip : String) (t : ℕ)
        → read (evict_from limiting now (pos ttl) xs l).last_seen ip ≡ some t
        → read l.last_seen ip ≡ some t
    unfolding evict_from
    evict_from_seen now [] l ip t h = h
    evict_from_seen now (x ∷ xs) l ip t h =
        let before = evict_from_seen now xs (evict_entry limiting now (pos ttl) x l) ip t h in
        ground (arith, read-erase l.last_seen x.key ip)

    evict_from-Unique :
        (now : ℕ) (xs : Dict ℕ) (l : AuthFailureLimiter limiting)
        → Unique l.last_seen
        → Unique (evict_from limiting now (pos ttl) xs l).last_seen
    unfolding evict_from
    evict_from-Unique now [] l u = u
    evict_from-Unique now (x ∷ xs) l u =
        evict_from-Unique now xs (evict_entry limiting now (pos ttl) x l)
          (ground (arith, erase-Unique l.last_seen x.key u))

    evict-Swept :
        (now t : ℕ) (l : AuthFailureLimiter limiting)
        → IsTracked t l
        → (ip : String) → Swept now l (evict limiting now (pos ttl) l) ip
    unfolding evict
    evict-Swept now t l v ip =
        evict_from-Swept now l.last_seen l
          (λ x m. v.seen x.key x.value (read_entry l.last_seen x v.unique m)) ip

    evict-IsTracked :
        (now t : ℕ) (l : AuthFailureLimiter limiting)
        → t ≤ now
        → IsTracked t l
        → IsTracked now (evict limiting now (pos ttl) l)
    unfolding evict
    evict-IsTracked now t l h v = record {
      unique = evict_from-Unique now l.last_seen l v.unique;
      seen = λ ip s e.
          Swept-used now s l (evict limiting now (pos ttl) l) ip (evict-Swept now t l v ip)
            (v.seen ip s (evict_from_seen now l.last_seen l ip s e));
      past = λ ip.
          Swept-used now now l (evict limiting now (pos ttl) l) ip (evict-Swept now t l v ip)
            (omega (arith, v.past ip, h));
    }

    last_seen-asks :
        (now : ℕ) (ip : String) (l : AuthFailureLimiter limiting)
        → (is_exhausted limiting now ip l).0.last_seen ≡ write l.last_seen ip now
    unfolding is_exhausted get_or_create
    last_seen-asks now ip l = ground arith

    last_seen-records :
        (now : ℕ) (ip : String) (l : AuthFailureLimiter limiting)
        → (try_record_failure limiting now ip l).0.last_seen ≡ write l.last_seen ip now
    unfolding try_record_failure get_or_create
    last_seen-records now ip l = ground arith

    asks-IsTracked :
        (now t : ℕ) (ip : String) (l : AuthFailureLimiter limiting)
        → t ≤ now
        → IsTracked t l
        → IsTracked now (is_exhausted limiting now ip l).0
    asks-IsTracked now t ip l h v = record {
      unique =
          subst Unique (sym (last_seen-asks now ip l)) (write-Unique l.last_seen ip now v.unique);
      seen = λ wanted s e. ground (
        arith,
        last_seen-asks now ip l,
        read-write l.last_seen ip wanted now,
        limiter_of-asks limiting now ip wanted l,
        v.seen wanted s,
        v.past wanted,
      );
      past = λ wanted. ground (arith, limiter_of-asks limiting now ip wanted l, v.past wanted);
    }

    records-IsTracked :
        (now t : ℕ) (ip : String) (l : AuthFailureLimiter limiting)
        → t ≤ now
        → IsTracked t l
        → IsTracked now (try_record_failure limiting now ip l).0
    records-IsTracked now t ip l h v = record {
      unique =
          subst Unique (sym (last_seen-records now ip l))
            (write-Unique l.last_seen ip now v.unique);
      seen = λ wanted s e. ground (
        arith,
        last_seen-records now ip l,
        read-write l.last_seen ip wanted now,
        limiter_of-records limiting now ip wanted l,
        allow_used now (limiter_of limiting l ip),
        v.seen wanted s,
        v.past wanted,
        v.past ip,
      );
      past = λ wanted. ground (
        arith,
        limiter_of-records limiting now ip wanted l,
        allow_used now (limiter_of limiting l ip),
        v.past wanted,
        v.past ip,
      );
    }

    -- Two states of the limiter that cannot be told apart from now on.
    abbrev AllAlike : ℕ → AuthFailureLimiter limiting → AuthFailureLimiter limiting → Type 0
    AllAlike now l m =
        (ip : String) → Alike now (limiter_of limiting l ip) (limiter_of limiting m ip)

    asks-AllAlike :
        (now : ℕ) (ip : String) (l m : AuthFailureLimiter limiting)
        → AllAlike now l m
        → AllAlike now (is_exhausted limiting now ip l).0 (is_exhausted limiting now ip m).0
    asks-AllAlike now ip l m a wanted =
        rw (limiter_of-asks limiting now ip wanted l, limiter_of-asks limiting now ip wanted m)
          (a wanted)

    records-AllAlike :
        (now : ℕ) (ip : String) (l m : AuthFailureLimiter limiting)
        → AllAlike now l m
        → AllAlike now
            (try_record_failure limiting now ip l).0
            (try_record_failure limiting now ip m).0
    records-AllAlike now ip l m a wanted =
        rw
          (limiter_of-records limiting now ip wanted l, limiter_of-records limiting now ip wanted m)
          (elim (Bool-cases (same_text ip wanted)) [
            | inl e ↦ rw e (
                inl (
                  ap (λ (p : Limiter × Bool). p.0)
                    (Alike-allow now (limiter_of limiting l ip) (limiter_of limiting m ip) (a ip))))
            | inr e ↦ rw e (a wanted)
          ])

    sweeps-AllAlike :
        (now t : ℕ) (l m : AuthFailureLimiter limiting)
        → IsTracked t l
        → AllAlike now l m
        → AllAlike now (evict limiting now (pos ttl) l) m
    sweeps-AllAlike now t l m v a ip = elim (evict-Swept now t l v ip) [
      | inl e ↦ rw e (a ip)
      | inr (e, i) ↦ elim (a ip) [
        | inl same ↦ inr (inl e, inr (subst (λ lim. used_at lim + ttl < now) same i))
        | inr (_, j) ↦ inr (inl e, j)
      ]
    ]

    answers-Alike :
        (es : List (Event limiting)) (t : ℕ) (l m : AuthFailureLimiter limiting)
        → IsTracked t l
        → AllAlike t l m
        → Ordered limiting t es
        → answers limiting (pos ttl) es l ≡ answers limiting (pos ttl) (unswept limiting es) m
    unfolding answers
    answers-Alike [] t l m v a o = refl
    answers-Alike (asks now ip ∷ es) t l m v a (h, o) =
        let a' : AllAlike now l m =
          λ w. Alike-le t now (limiter_of limiting l w) (limiter_of limiting m w) h (a w) in
        ap₂ (λ (b : Bool) bs. b ∷ bs)
          (asks_answer limiting now ip l
            ∙ Alike-is_spent now (limiter_of limiting l ip) (limiter_of limiting m ip) (a' ip)
            ∙ sym (asks_answer limiting now ip m))
          (answers-Alike es now (is_exhausted limiting now ip l).0
            (is_exhausted limiting now ip m).0 (asks-IsTracked now t ip l h v)
            (asks-AllAlike now ip l m a') o)
    answers-Alike (records now ip ∷ es) t l m v a (h, o) =
        let a' : AllAlike now l m =
          λ w. Alike-le t now (limiter_of limiting l w) (limiter_of limiting m w) h (a w) in
        ap₂ (λ (b : Bool) bs. b ∷ bs)
          (records_answer limiting now ip l
            ∙ ap (λ (p : Limiter × Bool). p.1)
                (Alike-allow now (limiter_of limiting l ip) (limiter_of limiting m ip) (a' ip))
            ∙ sym (records_answer limiting now ip m))
          (answers-Alike es now (try_record_failure limiting now ip l).0
            (try_record_failure limiting now ip m).0 (records-IsTracked now t ip l h v)
            (records-AllAlike now ip l m a') o)
    answers-Alike (sweeps now ∷ es) t l m v a (h, o) =
        let a' : AllAlike now l m =
          λ w. Alike-le t now (limiter_of limiting l w) (limiter_of limiting m w) h (a w) in
        answers-Alike es now (evict limiting now (pos ttl) l) m (evict-IsTracked now t l h v)
          (sweeps-AllAlike now t l m v a') o

    -- The sweeps cannot be observed: from an empty limiter, whatever requests ask and record and
    -- whenever the ticker fires, the answers are those of the same requests without any sweep. Time does
    -- not run backwards, and a limiter that was not used for longer than `ttl` is assumed to behave like
    -- a new one.
    pub answers-unswept :
        (es : List (Event limiting))
        → Ordered limiting 0 es
        → (let l : AuthFailureLimiter limiting = record { ips = []; last_seen = [] } in
            answers limiting (pos ttl) es l ≡ answers limiting (pos ttl) (unswept limiting es) l)
    unfolding read
    answers-unswept es o =
        let l : AuthFailureLimiter limiting = record { ips = []; last_seen = [] } in
        answers-Alike es 0 l l
          (record { unique = tt; seen = λ ip t h. cc h; past = λ ip. omega (arith, fresh_used) })
          (λ ip. inl refl) o
