-- ===== src/Events.antt =====
-- ledger/events.py: envelopes, events, canonical hashing, and the checks that an event passes before
-- it is written. `canonical_json`, `json.loads` and SHA-256 are the `Host` of Value.antt, and the
-- reading of the clock (`utc_now`) is the argument `now`.
pub mod Prepared
pub mod Chain
use Prim.Native.Char.{code}
use Prim.Native.String.{count}
use lean_evolve.Prelude.{
  ℕ, String, Bool, true, false, not, ◌||◌, Option, none, some, mem, ◌==◌, ltb, nat_eq, Except, ok,
  err, ◌>>=◌, ◌>>◌, raise_if, raise_as, if◌then◌else◌, maybe,
}
use lean_evolve.Value.{Value, null, int, str, dict, Fields, empty, entry, value_eq, Host}
use lean_evolve.Vocabulary.Terms.{subject_types}
use lean_evolve.Vocabulary.Actions.{EventAction}
use lean_evolve.Vocabulary.Validate.{VocabularyError, truthy, authorize, validate_event_payload}

abbrev pub event_format : String
event_format = "leanevolve-ledger-event-v1"

abbrev pub genesis_hash : String
genesis_hash = "0000000000000000000000000000000000000000000000000000000000000000"

abbrev pub max_identifier_chars : ℕ
max_identifier_chars = 200

-- `not_serializable` and `no_round_trip` are raised by `_json_safe`; `unencodable` stands for the
-- TypeError or ValueError of a call of `json.dumps` outside its `try`.
pub data EventError : Type 0 where
  unknown_subject_type : String → EventError
  empty_identifier : String → EventError
  long_identifier : String → EventError
  newline_in_identifier : String → EventError
  vocabulary : VocabularyError → EventError
  subject_type_refused : String → String → EventError
  not_serializable : EventError
  no_round_trip : EventError
  unencodable : EventError

pub record Envelope : Type 0 where
  pub actor_class : String
  pub actor_id : String
  pub campaign_id : Option String
  pub epoch_id : Option String
  pub turn_id : Option String

pub record Event : Type 0 where
  pub id : ℕ
  pub occurred_at : String
  pub recorded_at : String
  pub actor_class : String
  pub actor_id : String
  pub action : String
  pub subject_type : String
  pub subject_id : String
  pub payload : Value
  pub evidence_object_id : Option String
  pub campaign_id : Option String
  pub epoch_id : Option String
  pub turn_id : Option String
  pub idempotency_key : Option String
  pub previous_event_hash : String
  pub event_hash : String

abbrev optional : Option String → Value
optional none = null
optional (some s) = str s

-- `Event.hashed_core`: the fields that the chain commits to.
unfoldable pub hashed_core : Event → Value
hashed_core e = dict (
    entry "format" (str event_format) (
      entry "id" (int false e.id) (
        entry "occurred_at" (str e.occurred_at) (
          entry "campaign_id" (optional e.campaign_id) (
            entry "epoch_id" (optional e.epoch_id) (
              entry "turn_id" (optional e.turn_id) (
                entry "actor_class" (str e.actor_class) (
                  entry "actor_id" (str e.actor_id) (
                    entry "action" (str e.action) (
                      entry "subject_type" (str e.subject_type) (
                        entry "subject_id" (str e.subject_id) (
                          entry "payload" e.payload (
                            entry "evidence_object_id" (optional e.evidence_object_id) (
                              entry "previous_event_hash" (str e.previous_event_hash)
                                empty))))))))))))))

-- The arguments of `WriteSession.record` and `prepare` that say what happened.
pub record Draft : Type 0 where
  pub action : String
  pub subject_type : String
  pub subject_id : String
  pub payload : Fields
  pub evidence_object_id : Option String
  pub idempotency_key : Option String
  pub occurred_at : Option String

-- `c in value`, for a character by its code
contains_char : ℕ → String → Bool
contains_char c String.[] = false
contains_char c (String.◌∷◌ d s) = nat_eq (code d) c || contains_char c s

unfoldable pub validate_identifier : String → String → Except EventError String
unfolding contains_char
validate_identifier value label = do
  raise_if (value == "") (empty_identifier label)
  raise_if (ltb max_identifier_chars (count value)) (long_identifier label)
  raise_if (contains_char 10 value || contains_char 13 value) (newline_in_identifier label)
  ok value

abbrev or_raise : {A : Type 0} → Option A → EventError → Except EventError A
or_raise none e = err e
or_raise (some a) e = ok a

module _ (host : Host) where
  -- The digest of a value: SHA-256 over its canonical JSON.
  unfoldable pub digest : Value → Option String
  digest v = maybe none (λ t. some (host.sha256 t)) (host.dumps v)

  -- `Event.compute_hash`; `none` where `json.dumps` raises
  unfoldable pub compute_hash : Event → Option String
  compute_hash e = digest (hashed_core e)

  -- `Event.with_hash`
  unfoldable pub with_hash : Event → Except EventError Event
  with_hash e = do hash ← or_raise (compute_hash e) unencodable; ok (record e { event_hash = hash })

  -- `_json_safe`
  unfoldable pub json_safe : Fields → Except EventError Value
  json_safe payload = do
    encoded ← or_raise (host.dumps (dict payload)) not_serializable
    let decoded = host.loads encoded
    again ← or_raise (host.dumps decoded) unencodable
    raise_if (not (value_eq decoded (host.loads again))) no_round_trip
    ok decoded

  -- The event that `prepare` builds, before its hash.
  abbrev unhashed : String → ℕ → Envelope → Draft → String → Value → Event
  unhashed now event_id envelope draft previous payload = record {
    id = event_id;
    occurred_at = if truthy draft.occurred_at then maybe now (λ t. t) draft.occurred_at else now;
    recorded_at = now;
    actor_class = envelope.actor_class;
    actor_id = envelope.actor_id;
    action = draft.action;
    subject_type = draft.subject_type;
    subject_id = draft.subject_id;
    payload = payload;
    evidence_object_id = draft.evidence_object_id;
    campaign_id = envelope.campaign_id;
    epoch_id = envelope.epoch_id;
    turn_id = envelope.turn_id;
    idempotency_key = draft.idempotency_key;
    previous_event_hash = previous;
    event_hash = "";
  }

  unfoldable pub prepare : String → ℕ → Envelope → Draft → String → Except EventError Event
  prepare now event_id envelope draft previous = do
    raise_if (not (mem draft.subject_type subject_types)) (unknown_subject_type draft.subject_type)
    validate_identifier draft.subject_id "subject_id"
    validate_identifier envelope.actor_id "actor_id"
    raise_as vocabulary (authorize envelope.actor_class draft.action)
    declared ←
        raise_as vocabulary
          (validate_event_payload draft.action draft.payload draft.evidence_object_id)
    raise_if (not (mem draft.subject_type declared.subject_types))
        (subject_type_refused draft.action draft.subject_type)
    payload ← json_safe draft.payload
    with_hash (unhashed now event_id envelope draft previous payload)

-- A row of the table `events`: the payload is its JSON text.
pub record EventRow : Type 0 where
  pub id : ℕ
  pub occurred_at : String
  pub recorded_at : String
  pub actor_class : String
  pub actor_id : String
  pub action : String
  pub subject_type : String
  pub subject_id : String
  pub payload_json : String
  pub evidence_object_id : Option String
  pub campaign_id : Option String
  pub epoch_id : Option String
  pub turn_id : Option String
  pub idempotency_key : Option String
  pub previous_event_hash : String
  pub event_hash : String

module _ (host : Host) where
  abbrev row_with : Event → String → EventRow
  row_with e text = record {
    id = e.id;
    occurred_at = e.occurred_at;
    recorded_at = e.recorded_at;
    actor_class = e.actor_class;
    actor_id = e.actor_id;
    action = e.action;
    subject_type = e.subject_type;
    subject_id = e.subject_id;
    payload_json = text;
    evidence_object_id = e.evidence_object_id;
    campaign_id = e.campaign_id;
    epoch_id = e.epoch_id;
    turn_id = e.turn_id;
    idempotency_key = e.idempotency_key;
    previous_event_hash = e.previous_event_hash;
    event_hash = e.event_hash;
  }

  -- The row that `Ledger._insert_event` writes; `none` where `json.dumps` raises.
  unfoldable pub event_row : Event → Option EventRow
  event_row e = maybe none (λ t. some (row_with e t)) (host.dumps e.payload)

  unfoldable pub event_from_row : EventRow → Event
  event_from_row row = record {
    id = row.id;
    occurred_at = row.occurred_at;
    recorded_at = row.recorded_at;
    actor_class = row.actor_class;
    actor_id = row.actor_id;
    action = row.action;
    subject_type = row.subject_type;
    subject_id = row.subject_id;
    payload = host.loads row.payload_json;
    evidence_object_id = row.evidence_object_id;
    campaign_id = row.campaign_id;
    epoch_id = row.epoch_id;
    turn_id = row.turn_id;
    idempotency_key = row.idempotency_key;
    previous_event_hash = row.previous_event_hash;
    event_hash = row.event_hash;
  }
