-- ===== src/Prelude/Lists.antt =====
-- Membership as a type, with the place where it holds, through the list functions in use.
use mathlib.Core.Path.{◌≡◌, refl, sym, subst, ap, ◌∙◌}
use mathlib.Core.Logic.{◌⊎◌, inl, inr}
use mathlib.Core.Bool.{Bool, true}
use mathlib.Core.Option.{some}
use mathlib.Core.List.{List, [], ◌∷◌, ◌++◌, map, reverse, reverse-append}
use Prim.Native.String.{String}
use text.Mathlib.TextEquality.{eq_iff}
use native.Mathlib.Omega.{arith}
use lean_evolve.Prelude.Tests.{Bool-cases, some_inj, ◌==◌}
use lean_evolve.Prelude.Texts.{All, find, mem, select, any}

abbrev pub Member : {A : Type 0} → A → List A → Type 0
Member x [] = ⊥
Member x (y ∷ ys) = (x ≡ y) ⊎ Member x ys

module _ {A : Type 0} where
  pub Member-append : (x : A) (xs ys : List A) → Member x (xs ++ ys) → Member x xs ⊎ Member x ys
  Member-append x [] ys m = inr m
  Member-append x (y ∷ xs) ys (inl e) = inl (inl e)
  Member-append x (y ∷ xs) ys (inr m) = elim (Member-append x xs ys m) [
    | inl l ↦ inl (inr l)
    | inr r ↦ inr r
  ]

  pub Member-left : (x : A) (xs ys : List A) → Member x xs → Member x (xs ++ ys)
  Member-left x [] ys m = absurd m
  Member-left x (y ∷ xs) ys (inl e) = inl e
  Member-left x (y ∷ xs) ys (inr m) = inr (Member-left x xs ys m)

  pub Member-right : (x : A) (xs ys : List A) → Member x ys → Member x (xs ++ ys)
  Member-right x [] ys m = m
  Member-right x (y ∷ xs) ys m = inr (Member-right x xs ys m)

  pub Member-reverse : (x : A) (xs : List A) → Member x (reverse xs) → Member x xs
  Member-reverse x [] m = m
  Member-reverse x (y ∷ xs) m =
      elim (Member-append x (reverse xs) (y ∷ [])
        (subst (Member x) (reverse-append (y ∷ []) xs) m)) [
          | inl l ↦ inr (Member-reverse x xs l)
          | inr (inl e) ↦ inl e
          | inr (inr n) ↦ absurd n
        ]

  pub Member-select :
      (x : A) (test : A → Bool) (xs : List A)
      → Member x (select test xs)
      → Member x xs × (test x ≡ true)
  Member-select x test [] m = absurd m
  Member-select x test (y ∷ xs) m = elim (Bool-cases (test y)) [
    | inr drop ↦ let (n, t) = Member-select x test xs (rw drop at m) in (inr n, t)
    | inl keep ↦
        let k : Member x (y ∷ select test xs) = rw keep at m in
        elim k [
          | inl e ↦ (inl e, ap test e ∙ keep)
          | inr l ↦ let (n, t) = Member-select x test xs l in (inr n, t)
        ]
  ]

  pub select-Member :
      (x : A) (test : A → Bool) (xs : List A)
      → Member x xs
      → test x ≡ true
      → Member x (select test xs)
  select-Member x test [] m t = absurd m
  select-Member x test (y ∷ xs) m t = elim (Bool-cases (test y)) [
    | inl keep ↦ rw keep (elim m [ inl e ↦ inl e | inr n ↦ inr (select-Member x test xs n t) ])
    | inr drop ↦
        rw drop (elim m [
          | inl e ↦ absurd (cc (ap test e, t, drop))
          | inr n ↦ select-Member x test xs n t
        ])
  ]

  pub All-Member : (P : A → Type 0) (x : A) (xs : List A) → All P xs → Member x xs → P x
  All-Member P x [] h m = absurd m
  All-Member P x (y ∷ ys) (p, h) (inl e) = subst P (sym e) p
  All-Member P x (y ∷ ys) (p, h) (inr m) = All-Member P x ys h m

  pub All-++ : (P : A → Type 0) (xs ys : List A) → All P xs → All P ys → All P (xs ++ ys)
  All-++ P [] ys h k = k
  All-++ P (x ∷ xs) ys (p, h) k = (p, All-++ P xs ys h k)

  pub any-Member :
      (test : A → Bool) (xs : List A) → any test xs ≡ true → (x : A) × Member x xs × (test x ≡ true)
  any-Member test [] h = absurd (ground arith)
  any-Member test (x ∷ xs) h = elim (Bool-cases (test x)) [
    | inl hit ↦ (x, inl refl, hit)
    | inr miss ↦ let (y, m, t) = any-Member test xs (rw miss at h) in (y, inr m, t)
  ]

module _ {A B : Type 0} where
  pub Member-map :
      (f : A → B) (y : B) (xs : List A) → Member y (map f xs) → (x : A) × Member x xs × (y ≡ f x)
  Member-map f y [] m = absurd m
  Member-map f y (x ∷ xs) (inl e) = (x, inl refl, e)
  Member-map f y (x ∷ xs) (inr m) = let (z, n, e) = Member-map f y xs m in (z, inr n, e)

  pub map-Member : (f : A → B) (x : A) (xs : List A) → Member x xs → Member (f x) (map f xs)
  map-Member f x [] m = absurd m
  map-Member f x (y ∷ ys) (inl e) = inl (ap f e)
  map-Member f x (y ∷ ys) (inr m) = inr (map-Member f x ys m)

pub mem-Member : (k : String) (xs : List String) → Member k xs → mem k xs ≡ true
mem-Member k [] m = absurd m
mem-Member k (x ∷ xs) (inl e) = ground (arith, (eq_iff k x).1 e)
mem-Member k (x ∷ xs) (inr m) = ground (arith, mem-Member k xs m)

pub Member-mem : (k : String) (xs : List String) → mem k xs ≡ true → Member k xs
Member-mem k [] h = absurd (ground arith)
Member-mem k (x ∷ xs) h = elim (Bool-cases (k == x)) [
  | inl same ↦ inl ((eq_iff k x).0 same)
  | inr other ↦ inr (Member-mem k xs (rw other at h))
]

module _ {A : Type 0} where
  pub find-Member :
      (test : A → Bool) (xs : List A) (x : A)
      → find test xs ≡ some x
      → Member x xs × (test x ≡ true)
  find-Member test [] x h = absurd (ground arith)
  find-Member test (y ∷ ys) x h = elim (Bool-cases (test y)) [
    | inl hit ↦ let q : y ≡ x = some_inj (rw hit at h) in (inl (sym q), ap test (sym q) ∙ hit)
    | inr miss ↦ let (m, t) = find-Member test ys x (rw miss at h) in (inr m, t)
  ]
