-- ===== src/Prelude/Maps.antt =====
-- Go maps with string keys, as lists of entries: `m[k] = v` replaces the value of a key in place,
-- and a read is an option where the source uses the two-valued form.
use Prim.Native.String.{String}
use mathlib.Core.Path.{◌≡◌, refl}
use mathlib.Core.Option.{Option, none, some}
use mathlib.Core.List.{List, [], ◌∷◌}
use native.Mathlib.Omega.{arith}
use text.Mathlib.Text.{◌==◌ as same_text}
use text.Mathlib.TextEquality.{eq_iff}
use text.Mathlib.TextPositions.{eq_refl}
use mathlib.Core.Bool.{false}
use riskforge.Prelude.Tests.{if◌then◌else◌}
use riskforge.Prelude.Lists.{OneOf}
use mathlib.Core.Logic.{inl, inr}

pub record Entry {ℓ} (V : Type ℓ) : Type ℓ where
  pub key : String
  pub value : V

abbrev pub Dict {ℓ} : Type ℓ → Type ℓ
Dict V = List (Entry V)

unfoldable pub read {ℓ} : {V : Type ℓ} → Dict V → String → Option V
read [] wanted = none
read (x ∷ rest) wanted = if same_text x.key wanted then some x.value else read rest wanted

unfoldable pub write {ℓ} : {V : Type ℓ} → Dict V → String → V → Dict V
write [] name new_value = record { key = name; value = new_value } ∷ []
write (x ∷ rest) name new_value =
    if same_text x.key name
    then record x { value = new_value } ∷ rest
    else x ∷ write rest name new_value

-- A read after a write: the written value under its key, the old one under any other.
pub read-write {ℓ} :
    {V : Type ℓ} (d : Dict V) (name wanted : String) (new_value : V)
    → read (write d name new_value) wanted
      ≡ (if same_text name wanted then some new_value else read d wanted)
unfolding read write
read-write [] name wanted new_value = refl
read-write (x ∷ rest) name wanted new_value = ground (
  arith,
  read-write rest name wanted new_value,
  eq_iff x.key name,
  eq_iff x.key wanted,
  eq_iff name wanted,
)

pub read-write_same {ℓ} :
    {V : Type ℓ} (d : Dict V) (name : String) (new_value : V)
    → read (write d name new_value) name ≡ some new_value
read-write_same d name new_value = ground (arith, read-write d name name new_value, eq_refl name)

pub read-write_other {ℓ} :
    {V : Type ℓ} (d : Dict V) (name wanted : String) (new_value : V)
    → same_text name wanted ≡ false
    → read (write d name new_value) wanted ≡ read d wanted
read-write_other d name wanted new_value h = ground (arith, read-write d name wanted new_value)

-- `Delete` of a map.
unfoldable pub erase {ℓ} : {V : Type ℓ} → Dict V → String → Dict V
erase [] name = []
erase (x ∷ rest) name =
    let kept = erase rest name in if same_text x.key name then kept else x ∷ kept

pub read-erase {ℓ} :
    {V : Type ℓ} (d : Dict V) (name wanted : String)
    → read (erase d name) wanted ≡ (if same_text name wanted then none else read d wanted)
unfolding read erase
read-erase [] name wanted = ground arith
read-erase (x ∷ rest) name wanted =
    ground (
      arith,
      read-erase rest name wanted,
      eq_iff x.key name,
      eq_iff x.key wanted,
      eq_iff name wanted,
    )

-- No key has two entries.
abbrev pub Unique : {V : Type 0} → Dict V → Type 0
Unique [] = Unit
Unique (x ∷ rest) = (read rest x.key ≡ none) × Unique rest

pub write-Unique :
    {V : Type 0} (d : Dict V) (ip : String) (t : V) → Unique d → Unique (write d ip t)
unfolding read write
write-Unique [] ip t u = (refl, tt)
write-Unique (x ∷ rest) ip t (h, u) =
    ground (
      arith,
      write-Unique rest ip t u,
      read-write rest ip x.key t,
      eq_iff x.key ip,
      eq_iff ip x.key,
    )

pub erase-Unique : {V : Type 0} (d : Dict V) (ip : String) → Unique d → Unique (erase d ip)
unfolding erase
erase-Unique [] ip u = tt
erase-Unique (x ∷ rest) ip (h, u) = ground (arith, erase-Unique rest ip u, read-erase rest ip x.key)

pub read_entry :
    {V : Type 0} (d : Dict V) (x : Entry V) → Unique d → OneOf x d → read d x.key ≡ some x.value
unfolding read
read_entry [] x u m = absurd m
read_entry (y ∷ rest) x (h, u) (inl e) = ground (arith, eq_refl x.key)
read_entry (y ∷ rest) x (h, u) (inr m) = ground (arith, read_entry rest x u m, eq_iff y.key x.key)
