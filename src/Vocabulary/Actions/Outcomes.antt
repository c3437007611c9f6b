-- ===== src/Vocabulary/Actions/Outcomes.antt =====
-- ledger/vocabulary.py `_EVENT_ACTIONS`: formal outcomes and computations.
use lean_evolve.Prelude.{false, true, List, [], ◌∷◌}
use lean_evolve.Vocabulary.Actions.Declared.{EventAction, on_object}

unfoldable pub formal_outcomes_actions : List EventAction
formal_outcomes_actions =
    record {
      name = "elaboration_succeeded";
      subject_types = on_object;
      actors = "lean_scratch_gateway" ∷ "authoritative_evaluator" ∷ [];
      required_payload = "declarations" ∷ [];
      optional_payload = [];
      requires_evidence = false;
    }
    ∷ record {
      name = "elaboration_failed";
      subject_types = on_object;
      actors = "lean_scratch_gateway" ∷ "authoritative_evaluator" ∷ [];
      required_payload = [];
      optional_payload = "diagnostics_sha256" ∷ [];
      requires_evidence = false;
    }
    ∷ record {
      name = "scratch_kernel_checked";
      subject_types = on_object;
      actors = "lean_scratch_gateway" ∷ [];
      required_payload = "declaration" ∷ "proposition_sha256" ∷ "checkpoint_key" ∷ [];
      optional_payload = "direct_dependencies" ∷ [];
      requires_evidence = true;
    }
    ∷ record {
      name = "axiom_policy_audited";
      subject_types = on_object;
      actors = "axiom_auditor" ∷ "authoritative_evaluator" ∷ [];
      required_payload = "declaration" ∷ "axioms" ∷ "policy" ∷ "within_policy" ∷ [];
      optional_payload = [];
      requires_evidence = true;
    }
    ∷ record {
      name = "authoritative_evaluation_recorded";
      subject_types = on_object;
      actors = "authoritative_evaluator" ∷ [];
      required_payload = "evaluator_version" ∷ "stage" ∷ "outcome" ∷ [];
      optional_payload = "goal_statuses" ∷ [];
      requires_evidence = true;
    }
    ∷ record {
      name = "kernel_certified";
      subject_types = on_object;
      actors = "authoritative_evaluator" ∷ [];
      required_payload =
          "declaration" ∷ "proposition_sha256" ∷ "toolchain" ∷ "evaluator_version" ∷ "axiom_policy"
          ∷ [];
      optional_payload = [];
      requires_evidence = true;
    }
    ∷ record {
      name = "materialization_recorded";
      subject_types = on_object;
      actors = "authoritative_evaluator" ∷ [];
      required_payload = "module" ∷ [];
      optional_payload = [];
      requires_evidence = true;
    }
    ∷ record {
      name = "promotion_audited";
      subject_types = on_object;
      actors = "authoritative_evaluator" ∷ [];
      required_payload = "outcome" ∷ [];
      optional_payload = [];
      requires_evidence = true;
    }
    ∷ record {
      name = "promotion_recorded";
      subject_types = on_object;
      actors = "authoritative_evaluator" ∷ [];
      required_payload = "manifest_sha256" ∷ "catalog_sha256" ∷ [];
      optional_payload = [];
      requires_evidence = true;
    }
    ∷ []

unfoldable pub computation_actions : List EventAction
computation_actions =
    record {
      name = "computation_started";
      subject_types = on_object;
      actors = "computation_checker" ∷ "research_agent" ∷ [];
      required_payload = "method" ∷ [];
      optional_payload = "parameters" ∷ [];
      requires_evidence = false;
    }
    ∷ record {
      name = "computation_completed";
      subject_types = on_object;
      actors = "computation_checker" ∷ "research_agent" ∷ [];
      required_payload = "outcome" ∷ [];
      optional_payload = [];
      requires_evidence = true;
    }
    ∷ record {
      name = "computation_certificate_verified";
      subject_types = on_object;
      actors = "computation_checker" ∷ [];
      required_payload = "checker" ∷ "checker_version" ∷ "outcome" ∷ [];
      optional_payload = [];
      requires_evidence = true;
    }
    ∷ []
