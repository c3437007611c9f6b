-- ===== src/Artifacts/Entered.antt =====
-- ledger/artifacts.py: how stored bytes enter the ledger, and how its places are checked again.
use lean_evolve.Prelude.{
  ℕ, String, Bool, true, false, not, ◌&&◌, ◌||◌, Option, none, some, List, [], ◌∷◌, maybe, select,
  length, ltb, ◌==◌, if◌then◌else◌,
}
use lean_evolve.Value.{Value, str, int, get, value_eq, Host}
use lean_evolve.Vocabulary.Validate.{text_in}
use lean_evolve.Artifacts.Error.{object_conflict}
use lean_evolve.Store.Tables.{Ledger, LocationRow, ObjectRecord, fields_of, object, objects}
use lean_evolve.Store.Locations.{locations}
use lean_evolve.Store.Exec.{
  artifact, missing_key, unknown_object, Action, pure, gets, ◌>>=◌, ◌>>◌, raise_when, or_raise,
}
use lean_evolve.Store.Artifacts.{register_artifact, add_location, verify_location}
use lean_evolve.Artifacts.Files.{Codec, Files, StoredArtifact, file_at, path_for, verify}

abbrev pub replicated_types : List String
replicated_types =
    "kernel_receipt" ∷ "axiom_receipt" ∷ "promotion_manifest" ∷ "computation_certificate"
    ∷ "candidate_source" ∷ "scratch_source" ∷ []

abbrev pub minimum_copies : ℕ
minimum_copies = 2

-- `properties.get(name) == value`
abbrev holds : String → Value → ObjectRecord → Bool
holds name value o = maybe false (value_eq value) (get name (fields_of o.properties))

-- The arguments of `store_and_register` besides the bytes.
pub record Registration : Type 0 where
  pub artifact_type : String
  pub media_type : String
  pub canonical_name : Option String
  pub extra_locations : List String

module _ (host : Host) where
  -- `for location in extra_locations: session.add_location(…)`
  unfoldable pub add_locations : String → List String → Action (Unit {0})
  unfolding ◌>>=◌
  add_locations object_id [] = pure tt
  add_locations object_id (p ∷ ps) = do add_location host object_id p; add_locations object_id ps

  -- The object of the artifact is entered, or the one that is there has this content.
  unfoldable pub require_same :
      StoredArtifact → Registration → Option ObjectRecord → Action (Unit {0})
  unfolding ◌>>=◌
  require_same stored r none = do
    register_artifact host (record {
      sha256 = stored.sha256;
      artifact_type = r.artifact_type;
      below_zero = false;
      byte_size = stored.byte_size;
      media_type = r.media_type;
      canonical_name = r.canonical_name;
    })
    pure tt
  require_same stored r (some o) =
      raise_when
        (not (o.kind == "artifact")
          || (not (holds "sha256" (str stored.sha256) o)
              || not (holds "byte_size" (int false stored.byte_size) o)))
        (artifact (object_conflict stored.object_id))

  -- `store_and_register` behind `store.put_bytes(data)`, which returned `stored`
  unfoldable pub register_stored : StoredArtifact → Registration → Action StoredArtifact
  unfolding ◌>>=◌ add_locations
  register_stored stored r = do
    existing ← gets (λ l. object host l stored.object_id)
    require_same stored r existing
    add_location host stored.object_id stored.path
    add_locations stored.object_id r.extra_locations
    pure stored

  -- `under_replicated`
  unfoldable pub under_replicated : Ledger → List ObjectRecord
  under_replicated l =
      select
        (λ o.
          maybe false (text_in replicated_types) (get "artifact_type" (fields_of o.properties))
          && ltb (length (locations l o.id true)) minimum_copies)
        (objects host l (some "artifact"))

module _ (codec : Codec) where
  -- `str(value)`
  abbrev pub text_of : Value → String
  text_of (str s) = s
  text_of v = codec.show v

  -- `str(record.properties["sha256"])`
  unfoldable pub digest_of : ObjectRecord → Option String
  digest_of o = maybe none (λ v. some (text_of v)) (get "sha256" (fields_of o.properties))

module _ (codec : Codec) (root : String) (files : Files) where
  -- The test of the loop of `reverify` on one place.
  unfoldable pub place_holds : String → String → Bool
  place_holds digest place =
      maybe false (λ bytes. codec.digest bytes == digest) (file_at place files)
      || (path_for root digest == place && verify codec root digest files)

  -- The loop of `reverify`, with the places that fail in order.
  unfoldable pub verify_places : Host → String → String → List LocationRow → Action (List String)
  unfolding ◌>>=◌ place_holds
  verify_places host digest object_id [] = pure []
  verify_places host digest object_id (p ∷ ps) = do
    verify_location host object_id p.location (place_holds digest p.location)
    failures ← verify_places host digest object_id ps
    pure (if place_holds digest p.location then failures else p.location ∷ failures)

  -- `reverify`
  unfoldable pub reverify : Host → String → Action (List String)
  unfolding ◌>>=◌ verify_places digest_of
  reverify host object_id = do
    found ← gets (λ l. object host l object_id)
    o ← or_raise found (unknown_object object_id)
    digest ← or_raise (digest_of codec o) (missing_key "sha256")
    places ← gets (λ l. locations l object_id false)
    verify_places host digest object_id places
