-- ===== src/Base/Lists.antt =====
-- Lists: length over the native numbers, and predicates by recursion.
use Prim.Native.Nat.{ℕ, suc, ◌+◌}
use mathlib.Core.Path.{◌≡◌}
use mathlib.Core.Bool.{Bool, true, false}
use mathlib.Core.List.{List, [], ◌∷◌, ◌++◌}
use native.Mathlib.Omega.{arith}
use mathlib.Core.Logic.{◌⊎◌, inl, inr}
use kubeip.Base.Tests.{if◌then◌else◌, Bool-cases}

module _ {ℓ} {A : Type ℓ} where
  abbrev pub length : List A → ℕ
  length [] = 0
  length (x ∷ xs) = suc (length xs)

  pub length-append : (xs ys : List A) → length (xs ++ ys) ≡ length xs + length ys
  length-append [] ys = omega arith
  length-append (x ∷ xs) ys = omega (arith, length-append xs ys)

  abbrev pub is_empty : List A → Bool
  is_empty [] = true
  is_empty (x ∷ xs) = false

  -- The elements that pass a test, in order: a loop that appends to a fresh slice.
  abbrev pub filter : (A → Bool) → List A → List A
  filter keep [] = []
  filter keep (x ∷ xs) = if keep x then x ∷ filter keep xs else filter keep xs

  abbrev pub any : (A → Bool) → List A → Bool
  any test [] = false
  any test (x ∷ xs) = if test x then true else any test xs

  abbrev pub All {κ} : (A → Type κ) → List A → Type κ
  All P [] = Unit
  All P (x ∷ xs) = P x × All P xs

-- An element of a list.
abbrev pub In : {A : Type 0} → A → List A → Type 0
In x [] = ⊥
In x (y ∷ ys) = (x ≡ y) ⊎ In x ys

-- What is kept passes the test.
pub All-filter {ℓ} :
    {A : Type ℓ} (keep : A → Bool) (xs : List A) → All (λ x. keep x ≡ true) (filter keep xs)
All-filter keep [] = tt
All-filter keep (x ∷ xs) = elim (Bool-cases (keep x)) [
  | inl kept ↦ rw kept (kept, All-filter keep xs)
  | inr dropped ↦ rw dropped (All-filter keep xs)
]
