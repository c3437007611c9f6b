-- ===== src/Kernel/Complete.antt =====
-- When `run_kernel` of kernel.py accepts every goal of a configuration.
use lean_evolve.Prelude.{
  ℕ, String, ◌≡◌, refl, sym, ap, subst, ◌∙◌, inl, inr, Bool, true, ◌||◌, Option, none, some, List,
  [], ◌∷◌, ◌++◌, ◌==◌, map, mem, Member, Bool-cases, Option-cases, arith, eq_iff, All, ok,
}
use mathlib.Core.List.{append_assoc, append-nil}
use lean_evolve.Value.{Value}
use lean_evolve.Artifacts.Files.{Codec}
use lean_evolve.Config.Goals.{Goal, subset, goals}
use lean_evolve.Config.Ladder.{IsLadder, goals-IsLadder}
use lean_evolve.Kernel.Accepts.{receipt_of, collect, passes, accept, accepted_goals}

-- A receipt for the declaration, and one with allowed axioms only.
abbrev IsGood : List String → Option (List String) → Type 0
IsGood allowed none = ⊥
IsGood allowed (some axioms) = subset axioms allowed ≡ true

subset-all :
    (xs ys zs : List String)
    → ((x : String) → mem x ys ≡ true → mem x zs ≡ true)
    → subset xs ys ≡ true
    → subset xs zs ≡ true
subset-all [] ys zs h k = refl
subset-all (x ∷ xs) ys zs h k =
    ground (arith, h x (ground (arith, k)), subset-all xs ys zs h (ground (arith, k)))

mem-append :
    (x y : String) (xs : List String) → (mem x xs || x == y) ≡ true → mem x (xs ++ y ∷ []) ≡ true
mem-append x y [] h = ground (arith, h)
mem-append x y (z ∷ xs) h = ground (arith, h, mem-append x y xs)

module _ (audit : Goal → Option (List String)) (allowed : List String) where
  -- The run for the goal reports allowed axioms only.
  abbrev pub Passes : Goal → Type 0
  Passes g = (axioms : List String) × (audit g ≡ some axioms) × (subset axioms allowed ≡ true)

  collect-IsGood :
      (declaration : String) (receipts : List (String × List String)) (gs : List Goal)
      → All Passes gs
      → IsGood allowed (receipt_of declaration receipts)
      → IsGood allowed (receipt_of declaration (collect audit receipts gs))
  unfolding collect receipt_of
  collect-IsGood declaration receipts [] ps h = h
  collect-IsGood declaration receipts (g ∷ gs) ((axioms, ran, within), ps) h = rw ran (
      collect-IsGood declaration ((g.declaration, axioms) ∷ receipts) gs ps
        (elim (Bool-cases (declaration == g.declaration)) [
          | inl same ↦ rw same within
          | inr differs ↦ rw differs h
        ]))

  collect-covers :
      (g : Goal) (receipts : List (String × List String)) (gs : List Goal)
      → All Passes gs
      → Member g gs
      → IsGood allowed (receipt_of g.declaration (collect audit receipts gs))
  unfolding collect receipt_of
  collect-covers g receipts [] ps m = absurd m
  collect-covers g receipts (h ∷ gs) ((axioms, ran, within), ps) (inr m) =
      rw ran (collect-covers g _ gs ps m)
  collect-covers g receipts (h ∷ gs) ((axioms, ran, within), ps) (inl e) = rw ran (
      collect-IsGood g.declaration ((h.declaration, axioms) ∷ receipts) gs ps
        (rw ((eq_iff g.declaration h.declaration).1 (ap (λ (x : Goal). x.declaration) e)) within))

  passes-good :
      (receipts : List (String × List String)) (accepted : List String) (g : Goal)
      → IsGood allowed (receipt_of g.declaration receipts)
      → subset g.depends_on accepted ≡ true
      → passes allowed receipts accepted g ≡ true
  unfolding passes
  passes-good receipts accepted g good known =
      elim (Option-cases (receipt_of g.declaration receipts)) [
        | inl missing ↦ absurd (subst (IsGood allowed) missing good)
        | inr (axioms, found) ↦ rw (found, subst (IsGood allowed) found good, known) refl
      ]

  accept-IsLadder :
      (receipts : List (String × List String)) (accepted seen : List String) (gs : List Goal)
      → IsLadder seen gs
      → ((x : String) → mem x seen ≡ true → mem x accepted ≡ true)
      → ((g : Goal) → Member g gs → IsGood allowed (receipt_of g.declaration receipts))
      → accept allowed receipts accepted gs ≡ accepted ++ map (λ (g : Goal). g.name) gs
  unfolding accept
  accept-IsLadder receipts accepted seen [] ladder later good = sym (append-nil accepted)
  accept-IsLadder receipts accepted seen (g ∷ gs) (step, ladder) later good =
      let known = subset-all g.depends_on seen accepted later step.earlier in
      let accepts = passes-good receipts accepted g (good g (inl refl)) known in
      rw accepts (
        accept-IsLadder receipts (accepted ++ g.name ∷ []) (g.name ∷ seen) gs ladder
          (λ x m. mem-append x g.name accepted (newer x m (later x))) (λ x m. good x (inr m))
        ∙ append_assoc accepted (g.name ∷ []) (map (λ (x : Goal). x.name) gs))
    where
      newer :
          (x : String)
          → mem x (g.name ∷ seen) ≡ true
          → (mem x seen ≡ true → mem x accepted ≡ true)
          → (mem x accepted || x == g.name) ≡ true
      newer x m old = elim (Bool-cases (mem x seen)) [
        | inl before ↦ ground (arith, old before)
        | inr other ↦ ground (arith, m, other)
      ]

  -- Where every run of Lean for a goal of a configuration that `_goals` accepts reports allowed axioms
  -- only, `run_kernel` accepts all of them, in their order: no goal is left out for its dependencies.
  pub accepted_goals-goals :
      (codec : Codec) (is_space : ℕ → Bool) (v : Value) (gs : List Goal)
      → goals codec is_space v ≡ ok gs
      → All Passes gs
      → accepted_goals audit allowed gs ≡ map (λ (g : Goal). g.name) gs
  unfolding accepted_goals
  accepted_goals-goals codec is_space v gs h ps =
      accept-IsLadder (collect audit [] gs) [] [] gs (goals-IsLadder codec is_space v gs h)
        (λ x m. m) (λ g m. collect-covers g [] gs ps m)
