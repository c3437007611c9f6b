-- ===== src/Vocabulary/Actions/Scopes.antt =====
-- ledger/vocabulary.py `_EVENT_ACTIONS`: sources, and the operational scopes.
use lean_evolve.Prelude.{false, true, List, [], ◌∷◌}
use lean_evolve.Vocabulary.Actions.Declared.{EventAction, on_object, on_object_or_connection}

unfoldable pub sources_actions : List EventAction
sources_actions =
    record {
      name = "source_acquired";
      subject_types = on_object;
      actors = "human_researcher" ∷ "importer" ∷ "ledger_service" ∷ [];
      required_payload = "sha256" ∷ "media_type" ∷ [];
      optional_payload = [];
      requires_evidence = true;
    }
    ∷ record {
      name = "source_acquisition_failed";
      subject_types = on_object;
      actors = "human_researcher" ∷ "importer" ∷ "ledger_service" ∷ [];
      required_payload = "reason" ∷ "acquisition_request" ∷ [];
      optional_payload = [];
      requires_evidence = false;
    }
    ∷ record {
      name = "source_extraction_recorded";
      subject_types = on_object;
      actors = "human_researcher" ∷ "importer" ∷ "ledger_service" ∷ [];
      required_payload = "tool" ∷ "tool_version" ∷ [];
      optional_payload = [];
      requires_evidence = true;
    }
    ∷ record {
      name = "source_marker_validated";
      subject_types = on_object;
      actors = "human_researcher" ∷ "importer" ∷ "ledger_service" ∷ [];
      required_payload = "marker" ∷ "locator" ∷ "found" ∷ [];
      optional_payload = [];
      requires_evidence = false;
    }
    ∷ record {
      name = "human_review_recorded";
      subject_types = on_object_or_connection;
      actors = "human_researcher" ∷ [];
      required_payload = "outcome" ∷ [];
      optional_payload = "caveats" ∷ [];
      requires_evidence = false;
    }
    ∷ []

unfoldable pub operational_scopes_actions : List EventAction
operational_scopes_actions =
    record {
      name = "campaign_started";
      subject_types = on_object;
      actors = "human_researcher" ∷ "ledger_service" ∷ [];
      required_payload = "configuration_sha256" ∷ [];
      optional_payload = [];
      requires_evidence = false;
    }
    ∷ record {
      name = "campaign_completed";
      subject_types = on_object;
      actors = "human_researcher" ∷ "ledger_service" ∷ [];
      required_payload = "operational_state" ∷ [];
      optional_payload = [];
      requires_evidence = false;
    }
    ∷ record {
      name = "epoch_started";
      subject_types = on_object;
      actors = "human_researcher" ∷ "ledger_service" ∷ [];
      required_payload = "epoch_kind" ∷ [];
      optional_payload = "predecessor_id" ∷ [];
      requires_evidence = false;
    }
    ∷ record {
      name = "epoch_completed";
      subject_types = on_object;
      actors = "human_researcher" ∷ "ledger_service" ∷ [];
      required_payload = "operational_state" ∷ [];
      optional_payload = [];
      requires_evidence = false;
    }
    ∷ record {
      name = "turn_started";
      subject_types = on_object;
      actors = "ledger_service" ∷ "human_researcher" ∷ [];
      required_payload = [];
      optional_payload = "actor_identity" ∷ [];
      requires_evidence = false;
    }
    ∷ record {
      name = "turn_completed";
      subject_types = on_object;
      actors = "ledger_service" ∷ "human_researcher" ∷ [];
      required_payload = "operational_state" ∷ [];
      optional_payload = [];
      requires_evidence = false;
    }
    ∷ record {
      name = "spotlight_selected";
      subject_types = on_object;
      actors = "human_researcher" ∷ "research_agent" ∷ [];
      required_payload = "goal_id" ∷ "proposition_sha256" ∷ "selector" ∷ "hunch" ∷ [];
      optional_payload = "relevance_path" ∷ "turn_budget" ∷ "cost_budget" ∷ [];
      requires_evidence = false;
    }
    ∷ record {
      name = "spotlight_concluded";
      subject_types = on_object;
      actors = "human_researcher" ∷ "ledger_service" ∷ [];
      required_payload = "terminal_outcome" ∷ "reason" ∷ [];
      optional_payload = [];
      requires_evidence = false;
    }
    ∷ []
