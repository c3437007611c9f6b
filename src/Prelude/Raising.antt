-- ===== src/Prelude/Raising.antt =====
-- Code that may raise: a result or an error of one type `E`.
use mathlib.Core.Path.{◌≡◌, refl}
use mathlib.Core.Logic.{◌⊎◌, inl, inr}
use mathlib.Core.Bool.{Bool, true, false, not}

pub data Except (E A : Type 0) : Type 0 where
  ok : A → Except E A
  err : E → Except E A

infixl 5 ◌>>=◌ ◌>>◌
abbrev pub ◌>>=◌ : {E A B : Type 0} → Except E A → (A → Except E B) → Except E B
ok given >>= f = f given
err raised >>= f = err raised

abbrev pub ◌>>◌ : {E A B : Type 0} → Except E A → Except E B → Except E B
m >> k = m >>= λ _. k

-- `if test: raise e`
abbrev pub raise_if : {E : Type 0} → Bool → E → Except E (Unit {0})
raise_if true e = err e
raise_if false e = ok tt

-- `except E as error: raise f(error) from error`
abbrev pub raise_as : {E F A : Type 0} → (E → F) → Except E A → Except F A
raise_as f (ok a) = ok a
raise_as f (err e) = err (f e)

module _ {E A B : Type 0} where
  -- A chain that succeeds has two steps that succeed: what the first gives, and the second from it.
  pub >>=-eq-ok :
      (first : Except E A) (second : A → Except E B) {result : B}
      → (first >>= second) ≡ ok result
      → (given : A) × (first ≡ ok given) × (second given ≡ ok result)
  >>=-eq-ok (err raised) second whole = cc
  >>=-eq-ok (ok given) second whole = (given, refl, whole)

module _ {E : Type 0} where
  pub raise_if-eq-ok : (b : Bool) (e : E) → raise_if b e ≡ ok tt → b ≡ false
  raise_if-eq-ok true e h = cc
  raise_if-eq-ok false e h = refl

  pub raise_if-not-eq-ok : (b : Bool) (e : E) → raise_if (not b) e ≡ ok tt → b ≡ true
  raise_if-not-eq-ok true e h = refl
  raise_if-not-eq-ok false e h = cc

pub ok-injective : {E A : Type 0} {a b : A} → ◌≡◌ {A = Except E A} (ok a) (ok b) → a ≡ b
ok-injective h = cc

pub Except-cases :
    {E A : Type 0} (m : Except E A) → ((a : A) × (m ≡ ok a)) ⊎ ((e : E) × (m ≡ err e))
Except-cases (ok a) = inl (a, refl)
Except-cases (err e) = inr (e, refl)
