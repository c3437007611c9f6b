-- ===== src/Vocabulary/Actions/Artifacts.antt =====
-- ledger/vocabulary.py `_EVENT_ACTIONS`: artifacts, lifecycle and recovery.
use lean_evolve.Prelude.{false, true, List, [], ◌∷◌}
use lean_evolve.Vocabulary.Actions.Declared.{
  EventAction, all_actors, on_object, on_object_or_connection, on_ledger,
}

unfoldable pub artifacts_actions : List EventAction
artifacts_actions =
    record {
      name = "artifact_registered";
      subject_types = on_object;
      actors = all_actors;
      required_payload = "sha256" ∷ "byte_size" ∷ "artifact_type" ∷ [];
      optional_payload = [];
      requires_evidence = false;
    }
    ∷ record {
      name = "artifact_location_added";
      subject_types = on_object;
      actors = all_actors;
      required_payload = "location" ∷ [];
      optional_payload = [];
      requires_evidence = false;
    }
    ∷ record {
      name = "artifact_location_verified";
      subject_types = on_object;
      actors = "ledger_service" ∷ "human_researcher" ∷ [];
      required_payload = "location" ∷ "verified" ∷ [];
      optional_payload = [];
      requires_evidence = false;
    }
    ∷ record {
      name = "artifact_location_lost";
      subject_types = on_object;
      actors = "ledger_service" ∷ "human_researcher" ∷ [];
      required_payload = "location" ∷ "reason" ∷ [];
      optional_payload = [];
      requires_evidence = false;
    }
    ∷ record {
      name = "artifact_archived";
      subject_types = on_object;
      actors = "ledger_service" ∷ "human_researcher" ∷ [];
      required_payload = "retention_state" ∷ [];
      optional_payload = [];
      requires_evidence = false;
    }
    ∷ []

unfoldable pub lifecycle_and_recovery_actions : List EventAction
lifecycle_and_recovery_actions =
    record {
      name = "object_superseded";
      subject_types = on_object;
      actors = "human_researcher" ∷ "authoritative_evaluator" ∷ "research_agent" ∷ [];
      required_payload = "superseded_by" ∷ "reason" ∷ [];
      optional_payload = [];
      requires_evidence = false;
    }
    ∷ record {
      name = "object_retracted";
      subject_types = on_object;
      actors = "human_researcher" ∷ "authoritative_evaluator" ∷ "ledger_service" ∷ [];
      required_payload = "reason" ∷ [];
      optional_payload = [];
      requires_evidence = false;
    }
    ∷ record {
      name = "recovery_recorded";
      subject_types = on_object_or_connection;
      actors = "ledger_service" ∷ [];
      required_payload = "resolution" ∷ [];
      optional_payload = [];
      requires_evidence = false;
    }
    ∷ record {
      name = "historical_import_recorded";
      subject_types = on_object_or_connection;
      actors = "importer" ∷ [];
      required_payload = "import_source" ∷ "ordering_fidelity" ∷ [];
      optional_payload = [];
      requires_evidence = true;
    }
    ∷ record {
      name = "schema_migrated";
      subject_types = on_ledger;
      actors = "ledger_service" ∷ [];
      required_payload = "from_version" ∷ "to_version" ∷ [];
      optional_payload = [];
      requires_evidence = false;
    }
    ∷ record {
      name = "head_signed";
      subject_types = on_ledger;
      actors = "ledger_service" ∷ [];
      required_payload = "event_id" ∷ "event_hash" ∷ [];
      optional_payload = [];
      requires_evidence = false;
    }
    ∷ []
