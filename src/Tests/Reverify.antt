-- ===== src/Tests/Reverify.antt =====
-- An artifact with two places, one of which holds nothing (ledger/artifacts.py `reverify`).
use lean_evolve.Prelude.{
  ℕ, zero, suc, String, ◌≡◌, ◌⊎◌, refl, Bool, true, false, Option, none, some, List, [], ◌∷◌, ◌==◌,
  Except, ok, err, Member, arith, if◌then◌else◌,
}
use Prim.Native.String.{◌++◌ as text_append}
use lean_evolve.Value.{Value, int, str, dict, empty, entry, get, has, Host}
use lean_evolve.Events.{Envelope}
use lean_evolve.Store.Tables.{Ledger, LocationRow, ObjectRecord, empty_ledger}
use lean_evolve.Store.Exec.{Session, LedgerError}
use lean_evolve.Artifacts.Files.{Codec, Files, stored_as, path_for, shard, file_at, verify}
use lean_evolve.Artifacts.Entered.{
  Registration, add_locations, require_same, register_stored, digest_of, place_holds, verify_places,
  reverify,
}
use lean_evolve.Artifacts.Reverified.{Holds, Missing, reverify-returns}
use lean_evolve.Store.Locations.{locations}
use lean_evolve.Store.Artifacts.{
  artifact_id, add_location, verify_location, enter_location, write_location, require_artifact,
  is_sha256, register_artifact,
}
use lean_evolve.Store.Session.{
  insert_event, advance, prepared, check_evidence, append_event, existing_event, record_event,
}
use lean_evolve.Store.Objects.{check_object, existing_object, insert_object, create_object}
use lean_evolve.Store.Transaction.{begin, finish, write}
use lean_evolve.Store.Tables.{
  clashes, place_event, place_object, place_location, update, object_from_row, object_exists,
  object, head, event_by_key,
}
use lean_evolve.Store.Exec.{pure, raise, lift, gets, modify, ◌>>=◌}
use lean_evolve.Vocabulary.Validate.{
  require_object_kind, require_event_action, require_actor, authorize, validate_event_payload,
}
use lean_evolve.Vocabulary.Actions.{event_actions}
use lean_evolve.Vocabulary.Terms.{object_kinds}
use lean_evolve.Value.{value_eq, items_eq, fields_eq}
use lean_evolve.Events.{
  hashed_core, validate_identifier, digest, compute_hash, with_hash, json_safe, prepare, event_row,
  event_from_row,
}

numeral : ℕ → String
numeral zero = "0"
numeral (suc n) = text_append "1" (numeral n)

abbrev id_text : Option Value → String
id_text (some (int false n)) = numeral n
id_text v = "plain"

abbrev sha256 : String
sha256 = "0123456789abcdef0123456789abcdef0123456789abcdef0123456789abcdef"

abbrev host : Host
host = record {
  dumps = λ v. elim v [
    | dict d ↦ some (if has "sha256" d then "artifact" else id_text (get "id" d))
    | _ ↦ none
  ];
  loads = λ t. dict (if t == "artifact" then entry "sha256" (str sha256) empty else empty);
  sha256 = λ t. t;
}

abbrev codec : Codec
codec = record {
  digest = λ b. sha256;
  encode = λ t. [];
  show = λ v. "";
  to_int = λ v. none;
  to_float = λ v. none;
}

abbrev gateway : Envelope
gateway = record {
  actor_class = "ledger_service";
  actor_id = "service:ledger";
  campaign_id = none;
  epoch_id = none;
  turn_id = none;
}

abbrev registration : Registration
registration = record {
  artifact_type = "scratch_source";
  media_type = "text/x-lean";
  canonical_name = none;
  extra_locations = "tape/7" ∷ [];
}

abbrev files : Files
files = (text_append "store/01/" sha256, 1 ∷ []) ∷ []

abbrev clock : ℕ → String
clock n = "2026-01-01T00:00:00+00:00"

abbrev stored_ledger : Ledger
stored_ledger =
    (write host gateway clock (register_stored host (stored_as "store/" sha256 1) registration)
      empty_ledger).1

abbrev opened : Session
opened = begin host stored_ledger gateway clock

abbrev checked : Except LedgerError (List String) × Session
checked = reverify codec "store/" files host (artifact_id sha256) opened

abbrev is_ok : {E A : Type 0} → Except E A → Bool
is_ok (ok a) = true
is_ok (err e) = false

returned : {E A S : Type 0} (p : Except E A × S) → is_ok p.0 ≡ true → (a : A) × (p ≡ (ok a, p.1))
returned (ok a, s) h = (a, refl)
returned (err x, s) h = absurd (ground arith)

abbrev stored_object : ObjectRecord
stored_object = elim (object host opened.ledger (artifact_id sha256)) [
  | some o ↦ o
  | none ↦ record {
    id = "";
    kind = "";
    canonical_name = "";
    content_format = "";
    content = "";
    properties = dict empty;
    created_event_id = 0;
  }
]

runs :
    (is_ok checked.0 ≡ true)
    × (object host opened.ledger (artifact_id sha256) ≡ some stored_object)
    × (digest_of codec stored_object ≡ some sha256)
unfolding register_stored add_locations require_same digest_of place_holds verify_places reverify
    locations path_for shard file_at verify add_location verify_location enter_location
    write_location require_artifact is_sha256 register_artifact insert_event advance prepared
    check_evidence append_event existing_event record_event check_object existing_object
    insert_object create_object begin finish write clashes place_event place_object place_location
    update object_from_row object_exists object head event_by_key pure raise lift gets modify ◌>>=◌
    require_object_kind require_event_action require_actor authorize validate_event_payload
    event_actions object_kinds value_eq items_eq fields_eq hashed_core validate_identifier digest
    compute_hash with_hash json_safe prepare event_row event_from_row numeral
runs = (refl, refl, refl)

abbrev HasBytes : String → Type 0
HasBytes = Holds host codec "store/" files sha256 (artifact_id sha256)

reverify-returns_example :
    Missing host codec "store/" files sha256
      (artifact_id sha256)
      (locations opened.ledger (artifact_id sha256) false)
      (returned checked runs.0).0
    × ((p : LocationRow)
        → Member p (locations checked.1.ledger (artifact_id sha256) false)
        → (HasBytes p.location × (p.state ≡ "present"))
          ⊎ ((HasBytes p.location → ⊥) × (p.state ≡ "lost")))
reverify-returns_example =
    reverify-returns host codec "store/" files sha256 (artifact_id sha256) opened checked.1
      (returned checked runs.0).0 stored_object runs.1 runs.2 (returned checked runs.0).1
