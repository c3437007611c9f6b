-- ===== src/Prelude/Texts.antt =====
-- Sets of names, as the frozen sets and tuples of names in the source, and loops over lists.
use Prim.Native.Nat.{ℕ, suc}
use Prim.Native.String.{String}
use mathlib.Core.Path.{◌≡◌}
use mathlib.Core.Logic.{◌⊎◌}
use mathlib.Core.Bool.{Bool, true, false, ◌||◌}
use mathlib.Core.Option.{Option, none, some}
use mathlib.Core.List.{List, [], ◌∷◌}
use native.Mathlib.Omega.{arith}
use lean_evolve.Prelude.Tests.{◌==◌, nat_eq, if◌then◌else◌}

-- `name in names`
abbrev pub mem : String → List String → Bool
mem k [] = false
mem k (x ∷ xs) = k == x || mem k xs

module _ {ℓ} {A : Type ℓ} where
  abbrev pub length : List A → ℕ
  length [] = 0
  length (x ∷ xs) = suc (length xs)

  -- `[x for x in xs if test(x)]`
  abbrev pub select : (A → Bool) → List A → List A
  select test [] = []
  select test (x ∷ xs) = if test x then x ∷ select test xs else select test xs

  -- `next((x for x in xs if test(x)), None)`
  abbrev pub find : (A → Bool) → List A → Option A
  find test [] = none
  find test (x ∷ xs) = if test x then some x else find test xs

  abbrev pub any : (A → Bool) → List A → Bool
  any test [] = false
  any test (x ∷ xs) = test x || any test xs

abbrev pub All {ℓ κ} : {A : Type ℓ} → (A → Type κ) → List A → Type κ
All Good [] = Unit
All Good (first ∷ rest) = Good first × All Good rest

-- Membership as a type, with the place where it holds.
abbrev pub Among : String → List String → Type 0
Among k [] = ⊥
Among k (x ∷ xs) = (k ≡ x) ⊎ Among k xs

pub nat_eq_refl : (n : ℕ) → nat_eq n n ≡ true
nat_eq_refl n = ground arith

pub nat_eq_sound : (a b : ℕ) → nat_eq a b ≡ true → a ≡ b
nat_eq_sound a b h = ground arith
