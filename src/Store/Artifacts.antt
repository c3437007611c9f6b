-- ===== src/Store/Artifacts.antt =====
-- ledger/store.py `WriteSession`: artifacts and the places where their bytes are.
use Prim.Native.Char.{code}
use Prim.Native.String.{count, ◌++◌ as text_append}
use lean_evolve.Prelude.{
  ℕ, String, Bool, true, false, not, ◌&&◌, ◌||◌, Option, none, some, mem, find, maybe, ◌==◌, leb,
  ltb, nat_eq, if◌then◌else◌,
}
use lean_evolve.Value.{bool, int, str, empty, entry, Host}
use lean_evolve.Vocabulary.Terms.{retention_states}
use lean_evolve.Vocabulary.Validate.{truthy}
use lean_evolve.Events.{Draft}
use lean_evolve.Store.Tables.{
  Ledger, LocationRow, ObjectRecord, is_place, place_location, update, object,
}
use lean_evolve.Store.Exec.{
  unknown_object, not_a_sha256, negative_byte_size, unknown_retention, not_an_artifact, Action,
  pure, gets, modify, ◌>>=◌, ◌>>◌, raise_when, or_raise,
}
use lean_evolve.Store.Session.{plain, record_event}
use lean_evolve.Store.Objects.{NewObject, create_object}

-- `_SHA256.fullmatch`: 64 digits 0 to 9 or a to f
hex_digits : String → Bool
hex_digits String.[] = true
hex_digits (String.◌∷◌ c s) =
    (leb b'0' (code c) && leb (code c) b'9' || leb b'a' (code c) && leb (code c) b'f')
    && hex_digits s

unfoldable pub is_sha256 : String → Bool
unfolding hex_digits
is_sha256 s = nat_eq (count s) 64 && hex_digits s

abbrev pub artifact_id_prefix : String
artifact_id_prefix = "artifact:sha256:"

abbrev pub artifact_id : String → String
artifact_id sha256 = text_append artifact_id_prefix sha256

-- The arguments of `register_artifact`; `byte_size` is negative if `below_zero` and not 0.
pub record NewArtifact : Type 0 where
  pub sha256 : String
  pub artifact_type : String
  pub below_zero : Bool
  pub byte_size : ℕ
  pub media_type : String
  pub canonical_name : Option String

abbrev artifact_object : NewArtifact → NewObject
artifact_object a = record {
  id = artifact_id a.sha256;
  kind = "artifact";
  canonical_name =
      if truthy a.canonical_name
      then maybe (artifact_id a.sha256) (λ n. n) a.canonical_name
      else artifact_id a.sha256;
  content_format = "none";
  content = "";
  properties = entry "sha256" (str a.sha256) (
      entry "artifact_type" (str a.artifact_type) (
        entry "byte_size" (int a.below_zero a.byte_size)
          (entry "media_type" (str a.media_type) empty)));
  occurred_at = none;
}

abbrev registered : NewArtifact → Draft
registered a = record {
  action = "artifact_registered";
  subject_type = "object";
  subject_id = artifact_id a.sha256;
  payload = entry "sha256" (str a.sha256) (
      entry "byte_size" (int a.below_zero a.byte_size)
        (entry "artifact_type" (str a.artifact_type) empty));
  evidence_object_id = none;
  idempotency_key = some (text_append "artifact_registered:" a.sha256);
  occurred_at = none;
}

abbrev set_state : String → LocationRow → LocationRow
set_state state l = record l { state = state }

module _ (host : Host) where
  -- `WriteSession.register_artifact`
  unfoldable pub register_artifact : NewArtifact → Action ObjectRecord
  unfolding ◌>>=◌
  register_artifact a = do
    raise_when (not (is_sha256 a.sha256)) (not_a_sha256 a.sha256)
    raise_when (a.below_zero && ltb 0 a.byte_size) negative_byte_size
    o ← create_object host (artifact_object a)
    record_event host (registered a)
    pure o

  -- `WriteSession._require_artifact`
  unfoldable pub require_artifact : String → Action ObjectRecord
  unfolding ◌>>=◌
  require_artifact object_id = do
    found ← gets (λ l. object host l object_id)
    o ← or_raise found (unknown_object object_id)
    raise_when (not (o.kind == "artifact")) (not_an_artifact object_id o.kind)
    pure o

  -- The write of `add_location`, for a location that is not present.
  unfoldable pub write_location : String → String → Bool → ℕ → Ledger → Ledger
  write_location object_id location known event_id l = record l {
    locations =
        if known
        then update (is_place object_id location)
            (λ p. record p { state = "present"; created_event_id = event_id }) l.locations
        else place_location
            (record {
              object_id = object_id;
              location = location;
              state = "present";
              verified_at = none;
              created_event_id = event_id;
            })
            l.locations;
  }

  unfoldable pub enter_location : String → String → Bool → Action (Unit {0})
  unfolding ◌>>=◌
  enter_location object_id location known = do
    e ←
        record_event host
          (plain "artifact_location_added" object_id (entry "location" (str location) empty))
    modify (write_location object_id location known e.id)

  -- `WriteSession.add_location`
  unfoldable pub add_location : String → String → Action (Unit {0})
  unfolding ◌>>=◌
  add_location object_id location = do
    require_artifact object_id
    row ← gets (λ l. find (is_place object_id location) l.locations)
    maybe (enter_location object_id location false)
        (λ p. if p.state == "present" then pure tt else enter_location object_id location true) row

  -- `WriteSession.verify_location`
  unfoldable pub verify_location : String → String → Bool → Action (Unit {0})
  unfolding ◌>>=◌
  verify_location object_id location verified = do
    require_artifact object_id
    e ← record_event host (
        plain "artifact_location_verified" object_id
          (entry "location" (str location) (entry "verified" (bool verified) empty)))
    modify (λ l. record l {
      locations =
          update (is_place object_id location)
            (λ p. record p {
              state = if verified then "present" else "lost";
              verified_at = if verified then some e.occurred_at else none;
            })
            l.locations;
    })

  -- `WriteSession.lose_location`
  unfoldable pub lose_location : String → String → String → Action (Unit {0})
  unfolding ◌>>=◌
  lose_location object_id location reason = do
    require_artifact object_id
    record_event host (
        plain "artifact_location_lost" object_id
          (entry "location" (str location) (entry "reason" (str reason) empty)))
    modify (λ l. record l {
      locations = update (is_place object_id location) (set_state "lost") l.locations;
    })

  -- `WriteSession.archive_artifact`
  unfoldable pub archive_artifact : String → String → Action (Unit {0})
  unfolding ◌>>=◌
  archive_artifact object_id retention_state = do
    require_artifact object_id
    raise_when (not (mem retention_state retention_states)) (unknown_retention retention_state)
    record_event host
        (plain "artifact_archived" object_id (entry "retention_state" (str retention_state) empty))
    pure tt
