-- ===== src/Kernel/Audited.antt =====
-- What an accepted goal of kernel.py `run_kernel` has passed.
use lean_evolve.Prelude.{
  String, ◌≡◌, refl, sym, ap, ◌∙◌, inl, inr, Bool, true, false, ◌&&◌, Option, none, some, List, [],
  ◌∷◌, ◌++◌, ◌==◌, Member, Bool-cases, Option-cases, arith, eq_iff, eq_refl, some_inj,
}
use lean_evolve.Config.Goals.{Goal, subset}
use lean_evolve.Kernel.Accepts.{receipt_of, collect, passes, accept, accepted_goals}

-- Each receipt comes from the run for a goal with its declaration.
abbrev Reported : (Goal → Option (List String)) → List Goal → List (String × List String) → Type 0
Reported audit goals [] = Unit
Reported audit goals ((declaration, axioms) ∷ rest) =
    ((g : Goal) × Member g goals × (g.declaration ≡ declaration) × (audit g ≡ some axioms))
    × Reported audit goals rest

module _ (audit : Goal → Option (List String)) (goals : List Goal) where
  collect-Reported :
      (receipts : List (String × List String)) (gs : List Goal)
      → ((g : Goal) → Member g gs → Member g goals)
      → Reported audit goals receipts
      → Reported audit goals (collect audit receipts gs)
  unfolding collect
  collect-Reported receipts [] sub h = h
  collect-Reported receipts (g ∷ gs) sub h = elim (Option-cases (audit g)) [
    | inl failed ↦ rw failed (collect-Reported receipts gs (λ x m. sub x (inr m)) h)
    | inr (axioms, passed) ↦ rw passed (
        collect-Reported ((g.declaration, axioms) ∷ receipts) gs (λ x m. sub x (inr m))
          ((g, sub g (inl refl), refl, passed), h))
  ]

  receipt_of-Reported :
      (declaration : String) (axioms : List String) (receipts : List (String × List String))
      → Reported audit goals receipts
      → receipt_of declaration receipts ≡ some axioms
      → (g : Goal) × Member g goals × (g.declaration ≡ declaration) × (audit g ≡ some axioms)
  unfolding receipt_of
  receipt_of-Reported declaration axioms [] h q = absurd (ground arith)
  receipt_of-Reported declaration axioms ((other, found) ∷ rest) ((g, m, named, ran), h) q =
      elim (Bool-cases (declaration == other)) [
        | inl same ↦ (
          g,
          m,
          named ∙ sym ((eq_iff declaration other).0 same),
          ran ∙ ap some (some_inj (rw same at q)),
        )
        | inr differs ↦ receipt_of-Reported declaration axioms rest h (rw differs at q)
      ]

  -- What the run of `by` reported for the declaration of the goal `of`: axioms that are all allowed.
  pub record IsBacked (allowed : List String) (of : Goal) : Type 0 where
    pub by : Goal
    pub configured : Member by goals
    pub same_declaration : by.declaration ≡ of.declaration
    pub axioms : List String
    pub reported : audit by ≡ some axioms
    pub within : subset axioms allowed ≡ true

  both : (a b : Bool) → (a && b) ≡ true → (a ≡ true) × (b ≡ true)
  both true b h = (refl, h)
  both false b h = absurd (ground arith)

  passes-IsBacked :
      (allowed : List String) (receipts : List (String × List String)) (accepted : List String)
      (g : Goal)
      → Reported audit goals receipts
      → passes allowed receipts accepted g ≡ true
      → IsBacked allowed g × (subset g.depends_on accepted ≡ true)
  unfolding passes
  passes-IsBacked allowed receipts accepted g h p =
      elim (Option-cases (receipt_of g.declaration receipts)) [
        | inl missing ↦ absurd (ground (arith, rw missing at p))
        | inr (axioms, found) ↦
            let (within, supported) = both (subset axioms allowed) _ (rw found at p) in
            let (by, m, same, ran) = receipt_of-Reported g.declaration axioms receipts h found in
            (
              record {
                by = by;
                configured = m;
                same_declaration = same;
                axioms = axioms;
                reported = ran;
                within = within;
              },
              supported,
            )
      ]

  -- A name is accepted for a goal that is backed and whose dependencies were accepted before it.
  pub data Justified (allowed : List String) : List String → Type 0 where
    none_yet : {names : List String} → names ≡ [] → Justified allowed names
    one_more :
        {names : List String} (before : List String) (g : Goal)
        → names ≡ before ++ g.name ∷ []
        → Member g goals
        → IsBacked allowed g
        → subset g.depends_on before ≡ true
        → Justified allowed before
        → Justified allowed names

  accept-Justified :
      (allowed : List String) (receipts : List (String × List String)) (accepted : List String)
      (gs : List Goal)
      → Reported audit goals receipts
      → ((g : Goal) → Member g gs → Member g goals)
      → Justified allowed accepted
      → Justified allowed (accept allowed receipts accepted gs)
  unfolding accept
  accept-Justified allowed receipts accepted [] h sub j = j
  accept-Justified allowed receipts accepted (g ∷ gs) h sub j =
      elim (Bool-cases (passes allowed receipts accepted g)) [
        | inl yes_ ↦
            let (backed, supported) = passes-IsBacked allowed receipts accepted g h yes_ in
            rw yes_ (
              accept-Justified allowed receipts (accepted ++ g.name ∷ []) gs h
                (λ x m. sub x (inr m))
                (one_more accepted g refl (sub g (inl refl)) backed supported j))
        | inr no_ ↦
            rw no_ (accept-Justified allowed receipts accepted gs h (λ x m. sub x (inr m)) j)
      ]

-- The accepted goals are accepted one after the other, each for a declaration for which a run of Lean
-- reported allowed axioms only, and each after all the goals that it depends on.
pub accepted_goals-Justified :
    (audit : Goal → Option (List String)) (allowed : List String) (goals : List Goal)
    → Justified audit goals allowed (accepted_goals audit allowed goals)
unfolding accepted_goals
accepted_goals-Justified audit allowed goals =
    accept-Justified audit goals allowed (collect audit [] goals) [] goals
      (collect-Reported audit goals [] goals (λ g m. m) tt) (λ g m. m) (none_yet refl)

-- The run that backs a goal need not be its own: of two goals with one declaration and no
-- dependencies, the first is accepted although its own run fails, when the run of the second reports
-- allowed axioms.
pub accepted_goals-shared :
    (audit : Goal → Option (List String)) (allowed axioms : List String) (first second : Goal)
    → first.declaration ≡ second.declaration
    → first.depends_on ≡ []
    → second.depends_on ≡ []
    → audit first ≡ none
    → audit second ≡ some axioms
    → subset axioms allowed ≡ true
    → accepted_goals audit allowed (first ∷ second ∷ []) ≡ first.name ∷ second.name ∷ []
unfolding accepted_goals collect accept passes receipt_of
accepted_goals-shared audit allowed axioms first second same d1 d2 failed ran within =
    rw
      (
        failed,
        ran,
        (eq_iff first.declaration second.declaration).1 same,
        eq_refl second.declaration,
        within,
        d1,
        d2,
      )
      refl
