-- ===== src/Prelude/Lists.antt =====
-- Lists under native numbers, filters that run, and a stable sort by a numeric key.
use Prim.Native.Nat.{ℕ, zero, suc, ◌+◌}
use mathlib.Core.Path.{◌≡◌}
use mathlib.Core.Logic.{◌⊎◌, ◌↔◌}
use mathlib.Core.Bool.{Bool, true, false, ◌&&◌, ◌||◌}
use mathlib.Core.Option.{Option, none, some}
use mathlib.Core.List.{List, [], ◌∷◌, ◌++◌}
use native.Mathlib.Omega.{arith}
use washing.Prelude.Tests.{leb, if◌then◌else◌}

module _ {ℓ} {A : Type ℓ} where
  abbrev pub length : List A → ℕ
  length [] = 0
  length (x ∷ xs) = suc (length xs)

  abbrev pub take : ℕ → List A → List A
  take zero xs = []
  take (suc n) [] = []
  take (suc n) (x ∷ xs) = x ∷ take n xs

  abbrev pub drop : ℕ → List A → List A
  drop zero xs = xs
  drop (suc n) [] = []
  drop (suc n) (x ∷ xs) = drop n xs

  abbrev pub any : (A → Bool) → List A → Bool
  any p [] = false
  any p (x ∷ xs) = p x || any p xs

  abbrev pub all : (A → Bool) → List A → Bool
  all p [] = true
  all p (x ∷ xs) = p x && all p xs

  abbrev pub keep_if : (A → Bool) → List A → List A
  keep_if p [] = []
  keep_if p (x ∷ xs) = let rest = keep_if p xs in if p x then x ∷ rest else rest

  abbrev pub find : (A → Bool) → List A → Option A
  find p [] = none
  find p (x ∷ xs) = if p x then some x else find p xs

  -- A predicate that computes to a tuple.
  abbrev pub All {κ} : (A → Type κ) → List A → Type κ
  All P [] = Unit
  All P (x ∷ xs) = P x × All P xs

  pub length-append : (xs ys : List A) → length (xs ++ ys) ≡ length xs + length ys
  length-append [] ys = omega arith
  length-append (x ∷ xs) ys = omega (arith, length-append xs ys)

  -- Insertion by a test of what comes first, in front of the entries that it does not decide.
  unfoldable pub insert_with : (A → A → Bool) → A → List A → List A
  insert_with before x [] = x ∷ []
  insert_with before x (y ∷ ys) =
      let rest = insert_with before x ys in if before x y then x ∷ y ∷ ys else y ∷ rest

  -- `ORDER BY`, by a test of what comes first.
  unfoldable pub sort_with : (A → A → Bool) → List A → List A
  unfolding insert_with
  sort_with before [] = []
  sort_with before (x ∷ xs) = insert_with before x (sort_with before xs)

  -- `ORDER BY key ASC`
  unfoldable pub sort_by : (A → ℕ) → List A → List A
  unfolding sort_with
  sort_by key xs = sort_with (λ x y. leb (key x) (key y)) xs

module _ {A : Type 0} where
  -- Membership that computes to a sum.
  abbrev pub In : A → List A → Type 0
  In a [] = ⊥
  In a (x ∷ xs) = (x ≡ a) ⊎ In a xs

  pub In-append : (a : A) (xs ys : List A) → In a (xs ++ ys) ↔ (In a xs ⊎ In a ys)
  In-append a [] ys = grind arith
  In-append a (x ∷ xs) ys = grind (arith, In-append a xs ys)
