-- ===== src/Prelude/Turns.antt =====
-- A list of goroutines of which one moves, and sums over it.
use Prim.Native.Nat.{ℕ, zero, suc, ◌+◌}
use riskforge.Prelude.Tests.{◌==◌, if◌then◌else◌}
use mathlib.Core.Path.{◌≡◌}
use mathlib.Core.List.{List, [], ◌∷◌}
use native.Mathlib.Omega.{arith}

-- One place of a list changes from `p` to `p'`.
pub data Turn {ℓ} {A : Type ℓ} : List A → A → A → List A → Type ℓ where
  this : {p p' : A} {ps : List A} → Turn (p ∷ ps) p p' (p' ∷ ps)
  later : {q p p' : A} {ps ps' : List A} → Turn ps p p' ps' → Turn (q ∷ ps) p p' (q ∷ ps')

abbrev pub total {ℓ} : {A : Type ℓ} → (A → ℕ) → List A → ℕ
total weight [] = 0
total weight (a ∷ rest) = weight a + total weight rest

abbrev pub replicate {ℓ} : {A : Type ℓ} → ℕ → A → List A
replicate zero a = []
replicate (suc n) a = a ∷ replicate n a

pub Turn-total {ℓ} :
    {A : Type ℓ} (weight : A → ℕ) {p p' : A} {ps ps' : List A}
    → Turn ps p p' ps'
    → total weight ps + weight p' ≡ total weight ps' + weight p
Turn-total weight this = omega arith
Turn-total weight (later t) = omega (arith, Turn-total weight t)

pub total-replicate {ℓ} :
    {A : Type ℓ} (weight : A → ℕ) (n : ℕ) (a : A) → weight a ≡ 1 → total weight (replicate n a) ≡ n
total-replicate weight zero a h = omega arith
total-replicate weight (suc n) a h = omega (arith, total-replicate weight n a h)

-- A family with its value at `i` replaced.
abbrev pub update {ℓ} : {A : Type ℓ} → (ℕ → A) → ℕ → A → ℕ → A
update family i a k = if k == i then a else family k
