-- ===== src/Vocabulary/Actions/Checks.antt =====
-- ledger/vocabulary.py `_EVENT_ACTIONS`: creation and correction, and the lifecycle of a check.
use lean_evolve.Prelude.{false, true, List, [], ◌∷◌}
use lean_evolve.Vocabulary.Actions.Declared.{
  EventAction, all_actors, on_object, on_connection, on_object_or_connection,
}

unfoldable pub creation_and_correction_actions : List EventAction
creation_and_correction_actions =
    record {
      name = "object_created";
      subject_types = on_object;
      actors = all_actors;
      required_payload = "kind" ∷ [];
      optional_payload = "canonical_name" ∷ "content_format" ∷ "properties" ∷ [];
      requires_evidence = false;
    }
    ∷ record {
      name = "connection_created";
      subject_types = on_connection;
      actors = all_actors;
      required_payload = "relation" ∷ "from_id" ∷ "to_id" ∷ [];
      optional_payload = "properties" ∷ [];
      requires_evidence = false;
    }
    ∷ record {
      name = "connection_retracted";
      subject_types = on_connection;
      actors = "human_researcher" ∷ "authoritative_evaluator" ∷ "ledger_service" ∷ [];
      required_payload = "reason" ∷ [];
      optional_payload = [];
      requires_evidence = false;
    }
    ∷ record {
      name = "annotation_added";
      subject_types = on_object_or_connection;
      actors = all_actors;
      required_payload = "annotation_id" ∷ [];
      optional_payload = [];
      requires_evidence = false;
    }
    ∷ record {
      name = "correction_recorded";
      subject_types = on_object_or_connection;
      actors = "human_researcher" ∷ "ledger_service" ∷ "importer" ∷ [];
      required_payload = "reason" ∷ "corrects_event_id" ∷ [];
      optional_payload = [];
      requires_evidence = false;
    }
    ∷ record {
      name = "alias_added";
      subject_types = on_object;
      actors = "human_researcher" ∷ "authoritative_evaluator" ∷ "ledger_service" ∷ [];
      required_payload = "alias" ∷ [];
      optional_payload = [];
      requires_evidence = false;
    }
    ∷ []

unfoldable pub check_lifecycle_actions : List EventAction
check_lifecycle_actions =
    record {
      name = "check_submitted";
      subject_types = on_object;
      actors = "lean_scratch_gateway" ∷ "authoritative_evaluator" ∷ [];
      required_payload =
          "checkpoint_key" ∷ "environment_identity" ∷ "input_sha256" ∷ "request_class" ∷ [];
      optional_payload =
          "priority" ∷ "budget_seconds" ∷ "idempotency_key" ∷ "checker_identity" ∷ [];
      requires_evidence = true;
    }
    ∷ record {
      name = "check_reused";
      subject_types = on_object;
      actors = "lean_scratch_gateway" ∷ [];
      required_payload = "original_submission_scope" ∷ [];
      optional_payload = [];
      requires_evidence = false;
    }
    ∷ record {
      name = "check_started";
      subject_types = on_object;
      actors = "lean_scratch_gateway" ∷ "authoritative_evaluator" ∷ [];
      required_payload = "worker_id" ∷ [];
      optional_payload = "queue_delay_seconds" ∷ [];
      requires_evidence = false;
    }
    ∷ record {
      name = "check_completed";
      subject_types = on_object;
      actors = "lean_scratch_gateway" ∷ "authoritative_evaluator" ∷ [];
      required_payload = "outcome" ∷ "exit_code" ∷ [];
      optional_payload = "phase_timings" ∷ "diagnostics_sha256" ∷ [];
      requires_evidence = true;
    }
    ∷ record {
      name = "check_failed";
      subject_types = on_object;
      actors = "lean_scratch_gateway" ∷ "authoritative_evaluator" ∷ [];
      required_payload = "exit_code" ∷ [];
      optional_payload = "phase_timings" ∷ "diagnostics_sha256" ∷ [];
      requires_evidence = false;
    }
    ∷ record {
      name = "check_timed_out";
      subject_types = on_object;
      actors = "lean_scratch_gateway" ∷ "authoritative_evaluator" ∷ [];
      required_payload = "budget_seconds" ∷ [];
      optional_payload = [];
      requires_evidence = false;
    }
    ∷ record {
      name = "check_interrupted";
      subject_types = on_object;
      actors = "ledger_service" ∷ [];
      required_payload = "detected_by" ∷ [];
      optional_payload = [];
      requires_evidence = false;
    }
    ∷ record {
      name = "check_cancelled";
      subject_types = on_object;
      actors = "ledger_service" ∷ "human_researcher" ∷ [];
      required_payload = "reason" ∷ [];
      optional_payload = [];
      requires_evidence = false;
    }
    ∷ record {
      name = "check_superseded";
      subject_types = on_object;
      actors = "ledger_service" ∷ [];
      required_payload = "superseded_by" ∷ [];
      optional_payload = [];
      requires_evidence = false;
    }
    ∷ record {
      name = "check_deduplicated";
      subject_types = on_object;
      actors = "ledger_service" ∷ [];
      required_payload = "duplicate_of" ∷ [];
      optional_payload = [];
      requires_evidence = false;
    }
    ∷ []
