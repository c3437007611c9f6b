-- ===== src/Queue/Blocks.antt =====
-- The `with ledger.write(…)` blocks of ledger/queue.py `submit` and of the methods that record how a
-- check goes on.
use Prim.Native.String.{◌++◌ as text_append, slice}
use lean_evolve.Prelude.{ℕ, String, Bool, Option, none, some, [], Except}
use lean_evolve.Value.{Value, null, int, float, str, dict, Fields, empty, entry}
use lean_evolve.Events.{Draft, Event}
use lean_evolve.Store.Exec.{LedgerError, unencodable, Action, lift, gets, ◌>>=◌, ◌>>◌, or_raise}
use lean_evolve.Store.Session.{plain, record_event}
use lean_evolve.Store.Objects.{create_object}
use lean_evolve.Store.Connections.{connect}
use lean_evolve.Artifacts.Files.{Bytes, StoredArtifact}
use lean_evolve.Artifacts.Entered.{Registration, register_stored}
use lean_evolve.Queue.Exec.{DurableCheckQueue}
use lean_evolve.Queue.Jobs.{Scope, checker_identity, request_digest, job_id_of, scope}

-- The arguments of `submit`.
pub record Submission : Type 0 where
  pub source : Bytes
  pub checkpoint_key : String
  pub environment_identity : String
  pub request_class : String
  pub priority : Bool × ℕ
  pub budget_seconds : ℕ
  pub scope : Scope

abbrev optional : Option String → Value
optional none = null
optional (some s) = str s

abbrev scope_value : Scope → Value
scope_value s = dict (
    entry "campaign_id" (optional s.campaign_id)
      (entry "epoch_id" (optional s.epoch_id) (entry "turn_id" (optional s.turn_id) empty)))

module _ (q : DurableCheckQueue) where
  abbrev pub submission_digest : Submission → String
  submission_digest a =
      request_digest q.codec a.source a.checkpoint_key a.environment_identity a.request_class

  abbrev pub submitted_job : Submission → String
  submitted_job a = job_id_of (submission_digest a)

  abbrev pub input_sha256 : Submission → String
  input_sha256 a = q.codec.digest a.source

  abbrev pub reused : String → String → Scope → Draft
  reused job_id reuse_scope original = record {
    action = "check_reused";
    subject_type = "object";
    subject_id = job_id;
    payload = entry "original_submission_scope" (scope_value original) empty;
    evidence_object_id = none;
    idempotency_key =
        some (text_append "check-reused:" (text_append job_id (text_append ":" reuse_scope)));
    occurred_at = none;
  }

  -- The block of `submit` for a job that is there.
  unfoldable pub reuse_block : String → String → Action Event
  unfolding ◌>>=◌
  reuse_block job_id reuse_scope = do
    original ← gets (scope q job_id)
    record_event q.host (reused job_id reuse_scope original)

  abbrev pub source_registration : String → Registration
  source_registration job_id = record {
    artifact_type = "scratch_source";
    media_type = "text/x-lean";
    canonical_name = some (text_append "Scratch source for " job_id);
    extra_locations = [];
  }

  abbrev content_fields : Submission → Fields
  content_fields a =
      entry "input_sha256" (str (input_sha256 a))
        (entry "checkpoint_key" (str a.checkpoint_key) empty)

  abbrev number : Bool × ℕ → Value
  number (below_zero, n) = int below_zero n

  abbrev job_properties : Submission → String → Fields
  job_properties a source_artifact_id = entry "checker_identity" (str checker_identity) (
      entry "checkpoint_key" (str a.checkpoint_key) (
        entry "request_class" (str a.request_class) (
          entry "environment_identity" (str a.environment_identity) (
            entry "input_sha256" (str (input_sha256 a)) (
              entry "source_artifact_id" (str source_artifact_id) (
                entry "priority" (number a.priority)
                  (entry "budget_seconds" (float a.budget_seconds) empty)))))))

  abbrev pub submitted : Submission → String → Draft
  submitted a evidence = record {
    action = "check_submitted";
    subject_type = "object";
    subject_id = submitted_job a;
    payload = entry "checkpoint_key" (str a.checkpoint_key) (
        entry "environment_identity" (str a.environment_identity) (
          entry "input_sha256" (str (input_sha256 a)) (
            entry "request_class" (str a.request_class) (
              entry "priority" (number a.priority) (
                entry "budget_seconds" (float a.budget_seconds) (
                  entry "idempotency_key" (str (submission_digest a))
                    (entry "checker_identity" (str checker_identity) empty)))))));
    evidence_object_id = some evidence;
    idempotency_key = some (text_append "check-submitted:" (submission_digest a));
    occurred_at = none;
  }

  -- The block of `submit` for a new job, from the result of `put_bytes`.
  unfoldable pub submit_block : Submission → Except LedgerError StoredArtifact → Action Event
  unfolding ◌>>=◌
  submit_block a put = do
    kept ← lift put
    register_stored q.host kept (source_registration (submitted_job a))
    content ← or_raise (q.host.dumps (dict (content_fields a))) unencodable
    create_object q.host (record {
      id = submitted_job a;
      kind = "check";
      canonical_name = text_append "Scratch check " (slice (submission_digest a) 0 12);
      content_format = "json";
      content = content;
      properties = job_properties a kept.object_id;
      occurred_at = none;
    })
    connect q.host kept.object_id "produced_by" (submitted_job a) empty none
    record_event q.host (submitted a kept.object_id)

  -- `session.record("check_started", …)`, with the delay by the bits of the float
  abbrev pub started : String → String → ℕ → Draft
  started job_id worker_id queue_delay =
      plain "check_started" job_id
        (entry "worker_id" (str worker_id) (entry "queue_delay_seconds" (float queue_delay) empty))

  abbrev pub cancelled : String → String → Draft
  cancelled job_id reason = plain "check_cancelled" job_id (entry "reason" (str reason) empty)

  abbrev pub timed_out : String → ℕ → Draft
  timed_out job_id budget_seconds =
      plain "check_timed_out" job_id (entry "budget_seconds" (float budget_seconds) empty)

  abbrev pub interrupted : String → String → Draft
  interrupted job_id detected_by =
      plain "check_interrupted" job_id (entry "detected_by" (str detected_by) empty)

  abbrev pub superseded : String → String → Draft
  superseded job_id newer_job_id =
      plain "check_superseded" job_id (entry "superseded_by" (str newer_job_id) empty)

  abbrev pub recovered : String → Draft
  recovered job_id =
      plain "recovery_recorded" job_id
        (entry "resolution" (str "safe_to_resubmit_from_source_artifact") empty)

  -- The block of `reconcile` for one check.
  unfoldable pub reconcile_block : String → Action Event
  unfolding ◌>>=◌
  reconcile_block job_id = do
    record_event q.host (interrupted job_id "worker_startup")
    record_event q.host (recovered job_id)
