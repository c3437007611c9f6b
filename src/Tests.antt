-- ===== src/Tests.antt =====
-- Runs of the model, and each theorem with conditions at an input that meets them.
mod Vocabulary
mod Integrity
mod Queue
mod Artifacts
mod Program
mod Config
mod Reverify
mod Chain
use Prim.Native.String.{◌++◌ as text_append}
use lean_evolve.Prelude.{
  ℕ, zero, suc, String, ◌≡◌, refl, true, false, Option, none, some, List, [], ◌∷◌, ◌==◌,
  if◌then◌else◌,
}
use lean_evolve.Value.{Value, null, int, str, dict, Fields, empty, entry, get, has, Host}
use lean_evolve.Events.{Envelope, Draft}
use lean_evolve.Store.Tables.{Ledger, empty_ledger}
use lean_evolve.Store.Command.{Command}
use lean_evolve.Store.Session.{plain}
use lean_evolve.Store.Objects.{NewObject}
use lean_evolve.Store.Artifacts.{NewArtifact, artifact_id}
use lean_evolve.Store.Transaction.{Step, run_steps, write}
use lean_evolve.Derive.{truth_of}
use lean_evolve.Store.Session.{
  insert_event, advance, prepared, check_evidence, append_event, existing_event, record_event,
}
use lean_evolve.Store.Objects.{check_object, existing_object, insert_object, create_object}
use lean_evolve.Store.Connections.{
  write_edge, assert_edge, existing_edge, connect, retract_edge, retract,
}
use lean_evolve.Store.Transaction.{attempt, perform, begin, finish}
use lean_evolve.Store.Tables.{
  clashes, place_event, place_object, place_location, next_connection_id, update, object_from_row,
  connection_from_row, object_exists, object, connection, connections, head, event_by_key,
  events_of,
}
use lean_evolve.Store.Artifacts.{is_sha256, register_artifact}
use lean_evolve.Store.Exec.{pure, raise, lift, gets, modify, ◌>>=◌}
use lean_evolve.Vocabulary.Validate.{
  require_object_kind, require_relation, require_event_action, require_actor, authorize,
  check_trust, check_formalization, check_level, validate_connection, validate_event_payload,
}
use lean_evolve.Vocabulary.Actions.{event_actions}
use lean_evolve.Vocabulary.Terms.{object_kinds}
use lean_evolve.Vocabulary.Relations.{mathematical_relations, provenance_relations, relations}
use lean_evolve.Derive.{proved_step, proved_from, is_proved, refutes}
use lean_evolve.Value.{value_eq, items_eq, fields_eq}
use lean_evolve.Events.{
  hashed_core, validate_identifier, digest, compute_hash, with_hash, json_safe, prepare, event_row,
  event_from_row,
}
use lean_evolve.Prelude.{Bool, arith, ok, ◌≢◌, ◌⊎◌, inl, map, Except, err}
use lean_evolve.Store.Soundness.{
  Reachable, start, next, Reachable-IsSound, Continues, write-Continues, begin-IsAtHead,
}
use lean_evolve.Store.Block.{run_steps-Uses, Uses-record_event}
use lean_evolve.Derive.Later.{truth_of-write}
use lean_evolve.Derive.Trust.{texts_differ}
use lean_evolve.Store.Growth.{IsSound, history}
use lean_evolve.Store.Edges.Rows.{AreEdges}
use lean_evolve.Store.Edges.Reached.{Reachable-AreEdges}
use lean_evolve.Store.Edges.View.{Shows, retract-Shows}
use lean_evolve.Store.Edges.Asserted.{is_active-connect}
use lean_evolve.Store.Tables.{ConnectionRecord, is_active}
use lean_evolve.Store.Append.{Recorded, record_event-Recorded}
use lean_evolve.Store.Repeat.{record_event-again}
use lean_evolve.Store.Exec.{LedgerError, Session, Action}
use lean_evolve.Events.{Event, EventError, EventRow, genesis_hash}
use lean_evolve.Events.Prepared.{event_from_row-event_row}
use lean_evolve.Derive.Truth.{Stands, is_proved-Stands}
use lean_evolve.Derive.Trust.{IsCertified, IsRefuted, truth_of-IsCertified, truth_of-IsRefuted}

-- A small host: it keeps the trust level of a `dict` and the id of an event.
numeral : ℕ → String
numeral zero = "0"
numeral (suc n) = text_append "1" (numeral n)

abbrev id_text : Option Value → String
id_text (some (int false n)) = numeral n
id_text v = "plain"

abbrev dump : Value → Option String
dump (dict d) = some (if has "trust_level" d then "trusted" else id_text (get "id" d))
dump v = none

abbrev load : String → Value
load t = dict (if t == "trusted" then entry "trust_level" (str "kernel") empty else empty)

abbrev host : Host
host = record { dumps = dump; loads = load; sha256 = λ t. t }

abbrev evaluator : Envelope
evaluator = record {
  actor_class = "authoritative_evaluator";
  actor_id = "tool:evaluator";
  campaign_id = none;
  epoch_id = none;
  turn_id = none;
}

abbrev clock : ℕ → String
clock n = "2026-01-01T00:00:00+00:00"

abbrev claim_properties : Fields
claim_properties = entry "formal_system" (str "lean4") (
    entry "declaration" (str "d")
      (entry "proposition_sha256" (str "p") (entry "environment_identity" (str "e") empty)))

abbrev claim : String → NewObject
claim id = record {
  id = id;
  kind = "formal_claim";
  canonical_name = id;
  content_format = "lean";
  content = "";
  properties = claim_properties;
  occurred_at = none;
}

abbrev receipt_sha256 : String
receipt_sha256 = "0123456789abcdef0123456789abcdef0123456789abcdef0123456789abcdef"

abbrev receipt : NewArtifact
receipt = record {
  sha256 = receipt_sha256;
  artifact_type = "kernel_receipt";
  below_zero = false;
  byte_size = 10;
  media_type = "application/json";
  canonical_name = none;
}

abbrev certify : String → Draft
certify id = record {
  action = "kernel_certified";
  subject_type = "object";
  subject_id = id;
  payload = entry "declaration" (str "d") (
      entry "proposition_sha256" (str "p") (
        entry "toolchain" (str "t")
          (entry "evaluator_version" (str "v") (entry "axiom_policy" null empty))));
  evidence_object_id = some (artifact_id receipt_sha256);
  idempotency_key = some "kernel-certified";
  occurred_at = none;
}

-- Events 1 to 6: two claims, a receipt (two events), an edge, and a certificate for its source. The
-- certificate is recorded twice.
abbrev refutation : List Step
refutation =
    (false, Command.create_object (claim "goal"))
    ∷ (false, Command.create_object (claim "bridge"))
    ∷ (false, Command.register_artifact receipt)
    ∷ (
      false,
      Command.connect "bridge" "refutes" "goal" (entry "trust_level" (str "kernel") empty) none,
    )
    ∷ (false, Command.record_event (certify "bridge"))
    ∷ (true, Command.record_event (plain "check_reused" "bridge" empty))
    ∷ (false, Command.record_event (certify "bridge"))
    ∷ []

abbrev refuted_ledger : Ledger
refuted_ledger = (write host evaluator clock (run_steps host refutation) empty_ledger).1

-- Event 7: the edge is retracted.
abbrev retracted_ledger : Ledger
retracted_ledger =
    (write host evaluator clock
      (run_steps host ((false, Command.retract "bridge" "refutes" "goal" "wrong_bridge") ∷ []))
      refuted_ledger).1

-- A session that is about to certify `bridge` in the ledger of the first three calls.
abbrev claims_ledger : Ledger
claims_ledger =
    (write host evaluator clock
      (run_steps host (
        (false, Command.create_object (claim "goal"))
        ∷ (false, Command.create_object (claim "bridge"))
        ∷ (false, Command.register_artifact receipt)
        ∷ []))
      empty_ledger).1

abbrev opened : Session
opened = begin host claims_ledger evaluator clock

abbrev no_event : Event
no_event = record {
  id = 0;
  occurred_at = "";
  recorded_at = "";
  actor_class = "";
  actor_id = "";
  action = "";
  subject_type = "";
  subject_id = "";
  payload = null;
  evidence_object_id = none;
  campaign_id = none;
  epoch_id = none;
  turn_id = none;
  idempotency_key = none;
  previous_event_hash = "";
  event_hash = "";
}

abbrev event_of : {E : Type 0} → Except E Event → Event
event_of (ok e) = e
event_of (err x) = no_event

abbrev is_ok : {E A : Type 0} → Except E A → Bool
is_ok (ok a) = true
is_ok (err x) = false

event_of-is_ok : {E : Type 0} (r : Except E Event) → is_ok r ≡ true → r ≡ ok (event_of r)
event_of-is_ok (ok e) h = refl
event_of-is_ok (err x) h = absurd (ground arith)

abbrev certified : Except LedgerError Event × Session
certified = record_event host (certify "bridge") opened

abbrev other_draft : Draft
other_draft = record (certify "goal") { idempotency_key = some "kernel-certified" }

-- Another certification, between the two with one key.
abbrev noting : Action Event
noting = record_event host (record (certify "goal") { idempotency_key = none })

abbrev prepared_event : Except EventError Event
prepared_event = prepare host "now" 5 evaluator (certify "bridge") genesis_hash

-- Sessions that retract the edge, and that assert it anew.
abbrev retracting : Except LedgerError (Unit {0}) × Session
retracting =
    retract host "bridge" "refutes" "goal" "wrong_bridge"
      (begin host refuted_ledger evaluator clock)

abbrev trusted : Fields
trusted = entry "trust_level" (str "kernel") empty

abbrev reasserting : Except LedgerError ConnectionRecord × Session
reasserting =
    connect host "bridge" "refutes" "goal" trusted none
      (begin host retracted_ledger evaluator clock)

-- A session of the gateway after the refutation.
abbrev gateway : Envelope
gateway = record evaluator {
  actor_class = "lean_scratch_gateway";
  actor_id = "tool:durable-check-queue-v1";
}

abbrev reusing : Action Event
reusing = record_event host (plain "check_reused" "goal" empty)

abbrev reused_ledger : Ledger
reused_ledger = (write host gateway clock reusing refuted_ledger).1

returned :
    {A : Type 0} (p : Except LedgerError A × Session)
    → is_ok p.0 ≡ true
    → (a : A) × (p ≡ (ok a, p.1))
returned (ok a, s) h = (a, refl)
returned (err x, s) h = absurd (ground arith)

runs :
    (truth_of host refuted_ledger "goal" none ≡ "refuted")
    × (truth_of host refuted_ledger "bridge" none ≡ "proved")
    × (is_ok certified.0 ≡ true)
    × (is_ok prepared_event ≡ true)
    × (is_ok (noting certified.1).0 ≡ true)
    × (truth_of host retracted_ledger "goal" (some 6) ≡ "open")
    × (is_ok retracting.0 ≡ true)
    × (is_ok reasserting.0 ≡ true)
    × (truth_of host reused_ledger "bridge" none ≡ "proved")
unfolding insert_event advance prepared check_evidence append_event existing_event record_event
    check_object existing_object insert_object create_object write_edge assert_edge existing_edge
    connect retract_edge retract attempt perform run_steps begin finish write clashes place_event
    place_object place_location next_connection_id update object_from_row connection_from_row
    object_exists object connection connections head event_by_key events_of is_sha256
    register_artifact pure raise lift gets modify ◌>>=◌ require_object_kind require_relation
    require_event_action require_actor authorize check_trust check_formalization check_level
    validate_connection validate_event_payload event_actions object_kinds mathematical_relations
    provenance_relations relations proved_step proved_from is_proved refutes truth_of value_eq
    items_eq fields_eq hashed_core validate_identifier digest compute_hash with_hash json_safe
    prepare event_row event_from_row numeral
runs = (refl, refl, refl, refl, refl, refl, refl, refl, refl)

refuted-Reachable : Reachable host refuted_ledger
refuted-Reachable = next evaluator clock _ (start refl) (run_steps-Uses host refutation) refl

claims-IsSound : IsSound host claims_ledger
claims-IsSound =
    Reachable-IsSound host (next evaluator clock _ (start refl) (run_steps-Uses host _) refl)

truth_of-IsCertified_example : IsCertified host refuted_ledger "bridge" none
truth_of-IsCertified_example =
    truth_of-IsCertified host refuted_ledger "bridge" none refuted-Reachable runs.1

truth_of-IsRefuted_example : IsRefuted host refuted_ledger "goal" none
truth_of-IsRefuted_example =
    truth_of-IsRefuted host refuted_ledger "goal" none refuted-Reachable runs.0

write-Continues_example :
    Continues host evaluator refuted_ledger
      (write host evaluator clock
        (run_steps host ((false, Command.retract "bridge" "refutes" "goal" "wrong_bridge") ∷ []))
        refuted_ledger).1
write-Continues_example =
    write-Continues host evaluator clock _ refuted_ledger
      (run_steps-Uses host ((false, Command.retract "bridge" "refutes" "goal" "wrong_bridge") ∷ []))
      (Reachable-IsSound host refuted-Reachable)

record_event-Recorded_example : Recorded host (certify "bridge") opened certified.0 certified.1
record_event-Recorded_example = record_event-Recorded host (certify "bridge") opened

record_event-again_example :
    record_event host other_draft (noting certified.1).1
    ≡ (ok (event_of certified.0), (noting certified.1).1)
record_event-again_example =
    record_event-again host (certify "bridge") other_draft "kernel-certified" opened certified.1
      (event_of certified.0) noting
      (begin-IsAtHead host claims_ledger evaluator clock claims-IsSound)
      (Uses-record_event host (record (certify "goal") { idempotency_key = none })) refl refl
      (λ i. (event_of-is_ok certified.0 runs.2 i, certified.1))

event_from_row-event_row_example :
    (row : EventRow) × (event_row host (event_of prepared_event) ≡ some row)
    × (event_from_row host row ≡ event_of prepared_event)
event_from_row-event_row_example =
    event_from_row-event_row host "now" 5 evaluator (certify "bridge") genesis_hash
      (event_of-is_ok prepared_event runs.3)

is_proved-Stands_example :
    (is_proved (events_of host refuted_ledger (some "bridge") none) ≡ true
      → Stands (events_of host refuted_ledger (some "bridge") none))
    × (Stands (events_of host refuted_ledger (some "bridge") none)
        → is_proved (events_of host refuted_ledger (some "bridge") none) ≡ true)
is_proved-Stands_example = is_proved-Stands (events_of host refuted_ledger (some "bridge") none)

Reachable-AreEdges_example : AreEdges host refuted_ledger refuted_ledger.connections
Reachable-AreEdges_example = Reachable-AreEdges host refuted-Reachable

retract-Shows_example : Shows host "bridge" "refutes" "goal" retracting.1.ledger false
retract-Shows_example =
    retract-Shows host "bridge" "refutes" "goal" "wrong_bridge"
      (begin host refuted_ledger evaluator clock) retracting.1 (returned retracting runs.6).1

is_active-connect_example :
    (connection host reasserting.1.ledger "bridge" "refutes" "goal"
      ≡ some (returned reasserting runs.7).0)
    × (is_active (returned reasserting runs.7).0 ≡ true)
is_active-connect_example =
    is_active-connect host "bridge" "refutes" "goal" trusted none
      (begin host retracted_ledger evaluator clock) reasserting.1 (returned reasserting runs.7).0
      (returned reasserting runs.7).1

truth_of-write_example : truth_of host refuted_ledger "bridge" none ≡ "proved"
truth_of-write_example =
    truth_of-write host gateway clock reusing refuted_ledger "bridge" refuted-Reachable
      (Uses-record_event host (plain "check_reused" "goal" empty)) other runs.8
  where
    other : gateway.actor_class ≢ "authoritative_evaluator"
    other = texts_differ "lean_scratch_gateway" "authoritative_evaluator" refl
