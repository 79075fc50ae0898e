-- ===== src/Breaker/Slot.antt =====
-- The probe slot `halfOpenInFlight` of internal/circuitbreaker/breaker.go under concurrent calls.
use mathlib.Core.Path.{fun_ext}
use riskforge.Prelude.{
  update, Bool-cases, ◌==◌, sym, ap, ℕ, ◌≡◌, refl, ◌⊎◌, inl, inr, Bool, true, false, Option, String,
  arith,
}
use riskforge.Domain.Errors.{Error}
use riskforge.Breaker.{Breaker, Config, new}
use riskforge.Breaker.Goroutines.{
  After, leave, Pc, idle, reporting, gauging, probe_call, probe_reopen, probe_stamp, probe_clear,
  probe_count, probe_close, probe_zero_failures, probe_zero_successes, leaving, advance, System,
  Step, operate, again, Reach, here, next, init,
}

abbrev holds_slot : After → Bool
holds_slot (leave _) = true
holds_slot _ = false

-- Between a won CompareAndSwap(0, 1) and the deferred store.
abbrev pub in_slot : Pc → Bool
in_slot (reporting _ _ k) = holds_slot k
in_slot (gauging _ k) = holds_slot k
in_slot probe_call = true
in_slot (probe_reopen _) = true
in_slot (probe_stamp _) = true
in_slot (probe_clear _) = true
in_slot probe_count = true
in_slot probe_close = true
in_slot probe_zero_failures = true
in_slot probe_zero_successes = true
in_slot (leaving _) = true
in_slot _ = false

-- What one operation does to the slot: nothing, take it when it is free, or free it. `u` and `u'`
-- say whether the goroutine is in the slot, `f` and `f'` are the flag.
abbrev SlotMove : Bool → ℕ → Bool → ℕ → Type 0
SlotMove u f u' f' =
    ((u' ≡ u) × (f' ≡ f))
    ⊎ ((u ≡ false) × (u' ≡ true) × (f ≡ 0) × (f' ≡ 1))
    ⊎ ((u ≡ true) × (u' ≡ false) × (f' ≡ 0))

advance-SlotMove :
    (now : ℕ) (result : Option Error) (p : Pc) (b : Breaker)
    → SlotMove
        (in_slot p)
        b.half_open_in_flight
        (in_slot (advance now result p b).1)
        (advance now result p b).0.half_open_in_flight
unfolding advance
advance-SlotMove now result idle b = ground arith
advance-SlotMove now result (reporting from to k) b = ground arith
advance-SlotMove now result p b = ground arith

-- At most one index is in the slot, and the flag is 1 while there is one and 0 otherwise.
record SlotInv (f : ℕ) (ins : ℕ → Bool) : Type 0 where
  unique : (i j : ℕ) → ins i ≡ true → ins j ≡ true → i ≡ j
  taken : (i : ℕ) → ins i ≡ true → f ≡ 1
  held : (f ≡ 0) ⊎ ((i : ℕ) × (ins i ≡ true) × (f ≡ 1))

module _ (f f' : ℕ) (ins : ℕ → Bool) (u' : Bool) (inv : SlotInv f ins) (i : ℕ) where
  open inv use {unique, taken, held}

  move_unique :
      SlotMove (ins i) f u' f'
      → (j k : ℕ) → update ins i u' j ≡ true
      → update ins i u' k ≡ true
      → j ≡ k
  move_unique m j k hj hk = ground (arith, unique j k, unique i j, unique i k, taken j, taken k)

  move_taken : SlotMove (ins i) f u' f' → (j : ℕ) → update ins i u' j ≡ true → f' ≡ 1
  move_taken m j h = ground (arith, taken j, unique i j)

  move_held :
      SlotMove (ins i) f u' f' → (f' ≡ 0) ⊎ ((j : ℕ) × (update ins i u' j ≡ true) × (f' ≡ 1))
  move_held (inl (same, flag)) = elim held [
    | inl z ↦ inl (omega arith)
    | inr (j, hj, o) ↦ inr (j, ground arith, omega arith)
  ]
  move_held (inr (inl (_, into, _, one))) = inr (i, ground arith, one)
  move_held (inr (inr (_, _, zero_flag))) = inl zero_flag

  move-SlotInv : SlotMove (ins i) f u' f' → SlotInv f' (update ins i u')
  move-SlotInv m = record { unique = move_unique m; taken = move_taken m; held = move_held m }

abbrev inside : (ℕ → Pc) → ℕ → Bool
inside pc i = in_slot (pc i)

inside-update :
    (pc : ℕ → Pc) (i : ℕ) (p : Pc) → inside (update pc i p) ≡ update (inside pc) i (in_slot p)
inside-update pc i p =
    fun_ext λ j. elim (Bool-cases (j == i)) [ inl h ↦ rw h refl | inr h ↦ rw h refl ]

abbrev Slot : System → Type 0
Slot s = SlotInv s.mem.half_open_in_flight (inside s.pc)

Step-Slot : {s t : System} → Step s t → Slot s → Slot t
Step-Slot {s} (operate i now result) v =
    rw (inside-update s.pc i (advance now result (s.pc i) s.mem).1)
      (move-SlotInv _ _ _ _ v i (advance-SlotMove now result (s.pc i) s.mem))
Step-Slot {s} (again i r e) v =
    rw (inside-update s.pc i idle)
      (move-SlotInv _ s.mem.half_open_in_flight _ false v i (inl (sym (ap in_slot e), refl)))

Reach-Slot : {s t : System} → Slot s → Reach s t → Slot t
Reach-Slot v here = v
Reach-Slot v (next r st) = Step-Slot st (Reach-Slot v r)

init-Slot : (carrier_id : String) (cfg : Config) → Slot (init carrier_id cfg)
unfolding new
init-Slot carrier_id cfg = record { unique = λ i j h k. cc; taken = λ i h. cc; held = inl refl }

-- From a new breaker, whatever the configuration, the number of goroutines, their interleaving, the
-- clock and the results of the functions: two goroutines are never in the probe slot together.
pub probe_exclusion :
    (carrier_id : String) (cfg : Config) (s : System)
    → Reach (init carrier_id cfg) s
    → (i j : ℕ) → in_slot (s.pc i) ≡ true
    → in_slot (s.pc j) ≡ true
    → i ≡ j
probe_exclusion carrier_id cfg s r = (Reach-Slot (init-Slot carrier_id cfg) r).unique

-- In every state that is reachable from a new breaker, either the flag is 0 and no goroutine is in
-- the probe slot, or the flag is 1 and some goroutine is in it: the slot is never lost.
pub slot_flag :
    (carrier_id : String) (cfg : Config) (s : System)
    → Reach (init carrier_id cfg) s
    → ((s.mem.half_open_in_flight ≡ 0) × ((i : ℕ) → in_slot (s.pc i) ≡ false))
      ⊎ ((s.mem.half_open_in_flight ≡ 1) × ((i : ℕ) × (in_slot (s.pc i) ≡ true)))
slot_flag carrier_id cfg s r = elim v.held [
  | inl z ↦ inl (z, λ i. empty i z)
  | inr (i, h, o) ↦ inr (o, (i, h))
]
  where
    v : Slot s
    v = Reach-Slot (init-Slot carrier_id cfg) r

    empty : (i : ℕ) → s.mem.half_open_in_flight ≡ 0 → in_slot (s.pc i) ≡ false
    empty i z = elim (Bool-cases (in_slot (s.pc i))) [
      | inl h ↦ absurd (omega (arith, v.taken i h))
      | inr h ↦ h
    ]
