-- ===== src/Kernel/Accepts.antt =====
-- kernel.py `run_kernel`, the two loops over the goals. Lean runs once for each goal; what this run
-- and `_receipt_map` give is an argument.
use lean_evolve.Prelude.{
  String, Bool, false, ◌&&◌, Option, none, some, List, [], ◌∷◌, ◌++◌, maybe, ◌==◌, if◌then◌else◌,
}
use lean_evolve.Config.Goals.{Goal, subset}

-- `receipts.get(declaration)`; the last assignment stands first
unfoldable pub receipt_of : String → List (String × List String) → Option (List String)
receipt_of declaration [] = none
receipt_of declaration ((other, axioms) ∷ rest) =
    if declaration == other then some axioms else receipt_of declaration rest

-- `audit` gives the axioms that the run for a goal reports for its declaration, and nothing where
-- Lean fails or reports none.
module _ (audit : Goal → Option (List String)) where
  -- The first loop.
  unfoldable pub collect : List (String × List String) → List Goal → List (String × List String)
  collect receipts [] = receipts
  collect receipts (g ∷ gs) =
      collect (maybe receipts (λ axioms. (g.declaration, axioms) ∷ receipts) (audit g)) gs

module _ (allowed : List String) (receipts : List (String × List String)) where
  -- Whether the second loop appends the goal.
  unfoldable pub passes : List String → Goal → Bool
  unfolding receipt_of
  passes accepted g =
      maybe false (λ axioms. subset axioms allowed && subset g.depends_on accepted)
        (receipt_of g.declaration receipts)

  -- The second loop.
  unfoldable pub accept : List String → List Goal → List String
  unfolding passes
  accept accepted [] = accepted
  accept accepted (g ∷ gs) =
      accept (if passes accepted g then accepted ++ g.name ∷ [] else accepted) gs

-- `accepted_goals` of `run_kernel`, after a candidate that Lean accepts
unfoldable pub accepted_goals :
    (Goal → Option (List String)) → List String → List Goal → List String
unfolding collect accept
accepted_goals audit allowed goals = accept allowed (collect audit [] goals) [] goals
