-- ===== src/Store/Objects.antt =====
-- ledger/store.py `WriteSession`: objects and aliases.
use lean_evolve.Prelude.{
  String, Bool, not, ◌&&◌, Option, none, ◌∷◌, mem, find, maybe, ◌==◌, Except, ok, err, raise_as,
  if◌then◌else◌,
}
use lean_evolve.Value.{str, dict, Fields, empty, entry, Host}
use lean_evolve.Vocabulary.Terms.{content_formats}
use lean_evolve.Vocabulary.Validate.{nonempty, missing, require_object_kind}
use lean_evolve.Events.{Draft, Event}
use lean_evolve.Store.Tables.{
  ObjectRow, ObjectRecord, fields_of, place_object, object, object_exists,
}
use lean_evolve.Store.Exec.{
  LedgerError, vocabulary, unknown_content_format, refuses_content_format, requires_properties,
  object_conflict, unknown_object, alias_conflict, unencodable, assertion, Action, pure, lift, gets,
  modify, ◌>>=◌, ◌>>◌, raise_when, or_raise,
}
use lean_evolve.Store.Session.{plain, record_event}

-- The checks of `create_object` before it reads the ledger.
unfoldable pub check_object : String → String → Fields → Except LedgerError (Unit {0})
check_object kind content_format supplied = elim (raise_as vocabulary (require_object_kind kind)) [
  | err e ↦ err e
  | ok declared ↦
      if not (mem content_format content_formats)
      then err (unknown_content_format content_format)
      else if nonempty declared.content_formats && not (mem content_format declared.content_formats)
      then err (refuses_content_format kind content_format)
      else if nonempty (missing declared.required_properties supplied)
      then err (requires_properties kind (missing declared.required_properties supplied))
      else ok tt
]

-- The arguments of `create_object`.
pub record NewObject : Type 0 where
  pub id : String
  pub kind : String
  pub canonical_name : String
  pub content_format : String
  pub content : String
  pub properties : Fields
  pub occurred_at : Option String

module _ (host : Host) where
  -- `existing.identity() == candidate.identity()`, from the texts of the two property sets
  abbrev same_identity : ObjectRecord → NewObject → String → String → Bool
  same_identity o n stored supplied =
      o.kind == n.kind
      && (o.canonical_name == n.canonical_name
          && (o.content_format == n.content_format
              && (o.content == n.content && stored == supplied)))

  -- The branch of `create_object` where the object exists.
  unfoldable pub existing_object : NewObject → ObjectRecord → Action ObjectRecord
  unfolding ◌>>=◌
  existing_object n o = do
    stored ← or_raise (host.dumps (dict (fields_of o.properties))) unencodable
    supplied ← or_raise (host.dumps (dict n.properties)) unencodable
    raise_when (not (same_identity o n stored supplied)) (object_conflict n.id)
    pure o

  abbrev pub object_draft : NewObject → Draft
  object_draft n = record {
    action = "object_created";
    subject_type = "object";
    subject_id = n.id;
    payload = entry "kind" (str n.kind) (
        entry "canonical_name" (str n.canonical_name) (
          entry "content_format" (str n.content_format)
            (entry "properties" (dict n.properties) empty)));
    evidence_object_id = none;
    idempotency_key = none;
    occurred_at = n.occurred_at;
  }

  abbrev pub object_row : NewObject → String → Event → ObjectRow
  object_row n text e = record {
    id = n.id;
    kind = n.kind;
    canonical_name = n.canonical_name;
    content_format = n.content_format;
    content = n.content;
    properties_json = text;
    created_event_id = e.id;
  }

  -- The branch of `create_object` where the object is new.
  unfoldable pub insert_object : NewObject → Action ObjectRecord
  unfolding ◌>>=◌
  insert_object n = do
    e ← record_event host (object_draft n)
    text ← or_raise (host.dumps (dict n.properties)) unencodable
    modify (λ l. record l { objects = place_object (object_row n text e) l.objects })
    stored ← gets (λ l. object host l n.id)
    or_raise stored assertion

  -- `WriteSession.create_object`
  unfoldable pub create_object : NewObject → Action ObjectRecord
  unfolding ◌>>=◌
  create_object n = do
    lift (check_object n.kind n.content_format n.properties)
    existing ← gets (λ l. object host l n.id)
    maybe (insert_object n) (existing_object n) existing

  -- `WriteSession.add_alias`
  unfoldable pub add_alias : String → String → Action (Unit {0})
  unfolding ◌>>=◌
  add_alias alias object_id = do
    known ← gets (λ l. object_exists l object_id)
    raise_when (not known) (unknown_object object_id)
    row ← gets (λ l. find (λ a. a.alias == alias) l.aliases)
    maybe
        (do
          e ← record_event host (plain "alias_added" object_id (entry "alias" (str alias) empty))
          modify (λ l. record l {
            aliases =
                record { alias = alias; object_id = object_id; created_event_id = e.id }
                ∷ l.aliases;
          }))
        (λ a. raise_when (not (a.object_id == object_id)) (alias_conflict alias a.object_id)) row
