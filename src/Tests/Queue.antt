-- ===== src/Tests/Queue.antt =====
-- A check that is submitted, started and interrupted (ledger/queue.py).
use lean_evolve.Prelude.{
  ℕ, zero, suc, String, ◌≡◌, ◌↔◌, refl, Bool, true, false, Option, none, some, List, [], ◌∷◌, ◌==◌,
  Except, ok, err, is_some, Member, arith, if◌then◌else◌,
}
use Prim.Native.String.{◌++◌ as text_append}
use lean_evolve.Value.{Value, int, str, float, dict, Fields, empty, entry, get, has}
use lean_evolve.Store.Tables.{empty_ledger}
use lean_evolve.Store.Soundness.{Reachable, start as start_empty}
use lean_evolve.Artifacts.Files.{Codec}
use lean_evolve.Queue.Exec.{DurableCheckQueue, State, QueueError}
use lean_evolve.Queue.Jobs.{no_scope}
use lean_evolve.Queue.Blocks.{Submission, submitted_job}
use lean_evolve.Queue.Exec.{give, look, refuse_when, transact, transact_storing, ◌>>=◌ as bind}
use lean_evolve.Queue.Submit.{submit, reuse, enqueue}
use lean_evolve.Queue.Moves.{
  start, reconcile, reconcile_all, running_now, interrupt_running, has_key,
}
use lean_evolve.Queue.Blocks.{reconcile_block, submit_block}
use lean_evolve.Queue.Jobs.{
  CheckJob, request_digest, join_bytes, scope, from_record, job_of, pending, queued_jobs, sort_jobs,
  insert_job,
}
use lean_evolve.Artifacts.Files.{put_bytes, path_for, shard, file_at}
use lean_evolve.Artifacts.Entered.{register_stored, require_same, add_locations}
use lean_evolve.Store.Artifacts.{
  add_location, enter_location, write_location, require_artifact, is_sha256, register_artifact,
}
use lean_evolve.Derive.{
  state_of, verification, recorded_levels, lifecycle, lifecycle_from, lifecycle_step, operational,
  operational_from, operational_step, truth_of, refutes, is_proved, proved_from, proved_step,
  encoding_of, encoding_from,
}
use lean_evolve.Store.Session.{
  insert_event, advance, prepared, check_evidence, append_event, existing_event, record_event,
}
use lean_evolve.Store.Objects.{check_object, existing_object, insert_object, create_object}
use lean_evolve.Store.Connections.{write_edge, assert_edge, existing_edge, connect}
use lean_evolve.Store.Transaction.{begin, finish, write}
use lean_evolve.Store.Tables.{
  ObjectRecord, objects, clashes, place_event, place_object, place_location, next_connection_id,
  update, object_from_row, connection_from_row, object_exists, object, connection, connections,
  head, event_by_key, events_of,
}
use lean_evolve.Store.Exec.{pure, raise, lift, gets, modify, ◌>>=◌}
use lean_evolve.Vocabulary.Validate.{
  require_object_kind, require_relation, require_event_action, require_actor, authorize,
  check_trust, check_formalization, check_level, validate_connection, validate_event_payload,
  dominant_verification_level,
}
use lean_evolve.Vocabulary.Actions.{event_actions}
use lean_evolve.Vocabulary.Terms.{object_kinds}
use lean_evolve.Vocabulary.Relations.{mathematical_relations, provenance_relations, relations}
use lean_evolve.Value.{value_eq, items_eq, fields_eq}
use lean_evolve.Events.{
  hashed_core, validate_identifier, digest, compute_hash, with_hash, json_safe, prepare, event_row,
  event_from_row,
}
use lean_evolve.Queue.Machine.{progress}
use lean_evolve.Queue.Submitted.{submit-again}
use lean_evolve.Queue.Order.{IsQueue}
use lean_evolve.Queue.Pending.{IsWaiting, pending-IsQueue}
use lean_evolve.Queue.States.{Allowed, call-progress}
use lean_evolve.Queue.Reconciled.{Interrupts, Stopped, reconcile-Stopped}
use lean_evolve.Queue.Calls.{Call, call}
use lean_evolve.Queue.Harmless.{Follows, serve, serve-Follows}

numeral : ℕ → String
numeral zero = "0"
numeral (suc n) = text_append "1" (numeral n)

abbrev id_text : Option Value → String
id_text (some (int false n)) = numeral n
id_text v = "plain"

abbrev dump : Value → Option String
dump (dict d) = some (if has "checker_identity" d then "job" else id_text (get "id" d))
dump v = none

abbrev job_fields : Fields
job_fields = entry "checker_identity" (str "warm") (
    entry "checkpoint_key" (str "k") (
      entry "environment_identity" (str "e") (
        entry "input_sha256" (str "i") (
          entry "source_artifact_id" (str "a") (
            entry "request_class" (str "proof")
              (entry "priority" (int false 0) (entry "budget_seconds" (float 0) empty)))))))

abbrev load : String → Value
load t = dict (if t == "job" then job_fields else empty)

abbrev source_sha256 : String
source_sha256 = "0123456789abcdef0123456789abcdef0123456789abcdef0123456789abcdef"

abbrev codec : Codec
codec = record {
  digest = λ b. source_sha256;
  encode = λ t. [];
  show = λ v. "";
  to_int = λ v. none;
  to_float = λ v. none;
}

abbrev queue : DurableCheckQueue
queue = record {
  host = record { dumps = dump; loads = load; sha256 = λ t. t };
  codec = codec;
  root = "store/";
  max_pending = 64;
  clock = λ n. "2026-01-01T00:00:00+00:00";
}

abbrev request : Submission
request = record {
  source = 1 ∷ 2 ∷ [];
  checkpoint_key = "k";
  environment_identity = "e";
  request_class = "proof";
  priority = (false, 0);
  budget_seconds = 0;
  scope = no_scope;
}

abbrev at_first : State
at_first = record { ledger = empty_ledger; files = [] }

abbrev job : String
job = submitted_job queue request

abbrev queued : State
queued = serve queue (Call.submit request ∷ []) at_first

serve-Follows_example :
    Follows queue at_first.ledger
      (serve queue (Call.submit request ∷ Call.start job "worker" 0 ∷ []) at_first).ledger
serve-Follows_example =
    serve-Follows queue (Call.submit request ∷ Call.start job "worker" 0 ∷ []) at_first
      (start_empty refl)

abbrev started : Except QueueError (Unit {0}) × State
started = call queue (Call.start job "worker" 0) queued

abbrev reconciled : Except QueueError (List String) × State
reconciled = reconcile queue none started.1

abbrev is_ok : {E A : Type 0} → Except E A → Bool
is_ok (ok a) = true
is_ok (err x) = false

returned : {E A S : Type 0} (p : Except E A × S) → is_ok p.0 ≡ true → (a : A) × (p ≡ (ok a, p.1))
returned (ok a, s) h = (a, refl)
returned (err x, s) h = absurd (ground arith)

abbrev waiting : Except QueueError (List CheckJob)
waiting = pending queue none queued.ledger

given : {E A : Type 0} (m : Except E A) → is_ok m ≡ true → (a : A) × (m ≡ ok a)
given (ok a) h = (a, refl)
given (err x) h = absurd (ground arith)

abbrev submission : Except QueueError (CheckJob × Bool) × State
submission = submit queue request at_first

runs :
    (is_ok started.0 ≡ true)
    × (is_ok reconciled.0 ≡ true)
    × (is_ok waiting ≡ true)
    × (is_ok submission.0 ≡ true)
unfolding call serve submit reuse enqueue start reconcile reconcile_all running_now
    interrupt_running reconcile_block give look refuse_when transact transact_storing bind put_bytes
    path_for shard file_at register_stored require_same add_locations add_location enter_location
    write_location require_artifact submit_block request_digest join_bytes scope from_record job_of
    pending queued_jobs sort_jobs insert_job state_of verification recorded_levels lifecycle
    lifecycle_from lifecycle_step operational operational_from operational_step truth_of refutes
    is_proved proved_from proved_step encoding_of encoding_from objects insert_event advance
    prepared check_evidence append_event existing_event record_event check_object existing_object
    insert_object create_object write_edge assert_edge existing_edge connect begin finish write
    clashes place_event place_object place_location next_connection_id update object_from_row
    connection_from_row object_exists object connection connections head event_by_key events_of
    is_sha256 register_artifact pure raise lift gets modify ◌>>=◌ require_object_kind
    require_relation require_event_action require_actor authorize check_trust check_formalization
    check_level validate_connection validate_event_payload event_actions object_kinds
    mathematical_relations provenance_relations relations value_eq items_eq fields_eq hashed_core
    validate_identifier digest compute_hash with_hash json_safe prepare event_row event_from_row
    numeral dominant_verification_level
runs = (refl, refl, refl, refl)

queued-Reachable : Reachable queue.host queued.ledger
queued-Reachable =
    (serve-Follows queue (Call.submit request ∷ []) at_first (start_empty refl)).reachable

started-Reachable : Reachable queue.host started.1.ledger
unfolding serve
started-Reachable =
    (serve-Follows queue (Call.start job "worker" 0 ∷ []) queued queued-Reachable).reachable

call-progress_example :
    Allowed queue (Call.start job "worker" 0) queued.ledger
    × (progress queue job started.1.ledger ≡ some "running")
call-progress_example =
    call-progress queue (Call.start job "worker" 0) job "running" queued started.1 queued-Reachable
      refl (returned started runs.0).1

reconcile-Stopped_example :
    Interrupts queue started.1.ledger reconciled.1.ledger
    × ((o : ObjectRecord)
        → Member o (objects queue.host reconciled.1.ledger (some "check"))
        → has_key queue none o ≡ true
        → Stopped queue o.id reconciled.1.ledger)
reconcile-Stopped_example =
    reconcile-Stopped queue none started.1 reconciled.1 (returned reconciled runs.1).0
      started-Reachable (returned reconciled runs.1).1

abbrev job_with : Bool × ℕ → ℕ → CheckJob
job_with priority n = record {
  id = numeral n;
  checkpoint_key = "k";
  environment_identity = "e";
  input_sha256 = "i";
  source_artifact_id = "a";
  request_class = "proof";
  priority = priority;
  budget_seconds = 0;
  state = "queued";
  created_event_id = n;
}

-- The highest priority first, then the oldest, then a priority below 0.
sorted :
    sort_jobs (
      job_with (true, 1) 1
      ∷ job_with (false, 1) 2
      ∷ job_with (false, 2) 3
      ∷ job_with (false, 1) 0
      ∷ [])
    ≡ job_with (false, 2) 3
      ∷ job_with (false, 1) 0
      ∷ job_with (false, 1) 2
      ∷ job_with (true, 1) 1
      ∷ []
unfolding sort_jobs insert_job
sorted = refl

pending-IsQueue_example :
    IsQueue (given waiting runs.2).0
    × ((j : CheckJob)
        → Member j (given waiting runs.2).0
          ↔ IsWaiting queue none queued.ledger (objects queue.host queued.ledger (some "check")) j)
pending-IsQueue_example =
    pending-IsQueue queue none queued.ledger (given waiting runs.2).0 (given waiting runs.2).1

submit-again_example :
    ((returned submission runs.3).0.1 ≡ is_some (object queue.host at_first.ledger job))
    × ((returned submission runs.3).0.0.id ≡ job)
    × (submit queue request submission.1
        ≡ (ok ((returned submission runs.3).0.0, true), submission.1))
submit-again_example =
    submit-again queue request at_first submission.1 (returned submission runs.3).0.0
      (returned submission runs.3).0.1 (returned submission runs.3).1
