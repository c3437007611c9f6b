-- ===== src/Vocabulary/Actions/Declared.antt =====
-- ledger/vocabulary.py: the actors, and the declaration of an event action.
use lean_evolve.Prelude.{String, Bool, List, [], ◌∷◌}

abbrev pub actors : List String
actors =
    "research_agent" ∷ "lean_scratch_gateway" ∷ "authoritative_evaluator" ∷ "axiom_auditor"
    ∷ "computation_checker" ∷ "human_researcher" ∷ "importer" ∷ "ledger_service" ∷ []

pub record EventAction : Type 0 where
  pub name : String
  pub subject_types : List String
  pub actors : List String
  pub required_payload : List String
  pub optional_payload : List String
  pub requires_evidence : Bool

abbrev pub all_actors : List String
all_actors = actors

abbrev pub on_object : List String
on_object = "object" ∷ []

abbrev pub on_connection : List String
on_connection = "connection" ∷ []

abbrev pub on_object_or_connection : List String
on_object_or_connection = "object" ∷ "connection" ∷ []

abbrev pub on_ledger : List String
on_ledger = "ledger" ∷ []
