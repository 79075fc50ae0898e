-- ===== src/Prelude/Lists.antt =====
-- Lists measured by native numbers, predicates on all elements, and Boolean searches.
use Prim.Native.Nat.{ℕ, suc, ◌+◌}
use mathlib.Core.Path.{◌≡◌, refl, ap, sym, subst}
use mathlib.Core.Logic.{◌⊎◌, inl, inr}
use mathlib.Core.Bool.{Bool, false, ◌||◌}
use mathlib.Core.List.{List, [], ◌∷◌, ◌++◌, map}
use native.Mathlib.Omega.{arith}

module _ {ℓ} {A : Type ℓ} where
  abbrev pub length : List A → ℕ
  length [] = 0
  length (x ∷ xs) = suc (length xs)

  pub length-append : (xs ys : List A) → length (xs ++ ys) ≡ length xs + length ys
  length-append [] ys = omega arith
  length-append (x ∷ xs) ys = omega (arith, length-append xs ys)

  abbrev pub any : (A → Bool) → List A → Bool
  any p [] = false
  any p (x ∷ xs) = p x || any p xs

module _ {ℓ κ} {A : Type ℓ} (P : A → Type κ) where
  abbrev pub All : List A → Type κ
  All [] = Unit
  All (x ∷ xs) = P x × All xs

  pub All-append : (xs ys : List A) → All xs → All ys → All (xs ++ ys)
  All-append [] ys hx hy = hy
  All-append (x ∷ xs) ys (h, hx) hy = (h, All-append xs ys hx hy)

abbrev pub OneOf : {A : Type 0} → A → List A → Type 0
OneOf a [] = ⊥
OneOf a (x ∷ xs) = (a ≡ x) ⊎ OneOf a xs

pub OneOf-map :
    {A B : Type 0} (f : A → B) (a : A) (xs : List A) → OneOf a xs → OneOf (f a) (map f xs)
OneOf-map f a [] m = absurd m
OneOf-map f a (x ∷ xs) (inl e) = inl (ap f e)
OneOf-map f a (x ∷ xs) (inr m) = inr (OneOf-map f a xs m)

pub OneOf-map_back :
    {A B : Type 0} (f : A → B) (b : B) (xs : List A)
    → OneOf b (map f xs)
    → (a : A) × OneOf a xs × (b ≡ f a)
OneOf-map_back f b [] m = absurd m
OneOf-map_back f b (x ∷ xs) (inl e) = (x, inl refl, e)
OneOf-map_back f b (x ∷ xs) (inr m) = let (a, n, e) = OneOf-map_back f b xs m in (a, inr n, e)

pub length-map : {A B : Type 0} (f : A → B) (xs : List A) → length (map f xs) ≡ length xs
length-map f [] = refl
length-map f (x ∷ xs) = omega (arith, length-map f xs)

pub All-OneOf : {A : Type 0} (P : A → Type 0) (a : A) (xs : List A) → All P xs → OneOf a xs → P a
All-OneOf P a [] h m = absurd m
All-OneOf P a (x ∷ xs) (h, hs) (inl e) = subst P (sym e) h
All-OneOf P a (x ∷ xs) (h, hs) (inr m) = All-OneOf P a xs hs m
