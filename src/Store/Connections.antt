-- ===== src/Store/Connections.antt =====
-- ledger/store.py `WriteSession`: the connections of objects.
use lean_evolve.Prelude.{
  ℕ, String, not, Option, none, some, [], ◌∷◌, ◌++◌, maybe, ◌==◌, raise_as, if◌then◌else◌, nat_eq,
}
use lean_evolve.Value.{str, dict, Fields, empty, entry, Host}
use lean_evolve.Vocabulary.Validate.{validate_connection}
use lean_evolve.Events.{Draft}
use lean_evolve.Store.Tables.{
  Ledger, ConnectionRow, ConnectionRecord, is_active, fields_of, next_connection_id, update, object,
  connection,
}
use lean_evolve.Store.Exec.{
  vocabulary, unknown_source, unknown_target, connection_conflict, no_connection, unencodable,
  assertion, Action, pure, lift, gets, modify, ◌>>=◌, ◌>>◌, raise_when, or_raise,
}
use lean_evolve.Store.Session.{record_event}

module _ (host : Host) where
  abbrev edge_draft : String → String → String → Fields → Option String → Draft
  edge_draft from_id relation to_id supplied occurred_at = record {
    action = "connection_created";
    subject_type = "connection";
    subject_id = from_id;
    payload = entry "relation" (str relation) (
        entry "from_id" (str from_id)
          (entry "to_id" (str to_id) (entry "properties" (dict supplied) empty)));
    evidence_object_id = none;
    idempotency_key = none;
    occurred_at = occurred_at;
  }

  -- The UPDATE of an edge that was retracted and is asserted anew.
  abbrev reassert : String → ℕ → ConnectionRow → ConnectionRow
  reassert text event_id c = record c {
    properties_json = text;
    created_event_id = event_id;
    retracted_event_id = none;
  }

  -- The edge after its event: the row of the retracted edge with this id is written over, else a row
  -- is added.
  unfoldable pub write_edge : String → String → String → Option ℕ → String → ℕ → Ledger → Ledger
  write_edge from_id relation to_id (some edge_id) text event_id l = record l {
    connections = update (λ c. nat_eq c.id edge_id) (reassert text event_id) l.connections;
  }
  write_edge from_id relation to_id none text event_id l = record l {
    connections =
        l.connections
        ++ record {
          id = next_connection_id l.connections;
          from_id = from_id;
          relation = relation;
          to_id = to_id;
          properties_json = text;
          created_event_id = event_id;
          retracted_event_id = none;
        }
          ∷ [];
  }

  unfoldable pub assert_edge :
      String → String → String → Fields → Option String → Option ℕ → Action ConnectionRecord
  unfolding ◌>>=◌
  assert_edge from_id relation to_id supplied occurred_at known = do
    e ← record_event host (edge_draft from_id relation to_id supplied occurred_at)
    text ← or_raise (host.dumps (dict supplied)) unencodable
    modify (write_edge from_id relation to_id known text e.id)
    stored ← gets (λ l. connection host l from_id relation to_id)
    or_raise stored assertion

  -- The branch of `connect` where an active edge exists.
  unfoldable pub existing_edge : Fields → ConnectionRecord → Action ConnectionRecord
  unfolding ◌>>=◌
  existing_edge supplied c = do
    stored ← or_raise (host.dumps (dict (fields_of c.properties))) unencodable
    text ← or_raise (host.dumps (dict supplied)) unencodable
    raise_when (not (stored == text)) (connection_conflict c.from_id c.relation c.to_id)
    pure c

  -- `WriteSession.connect`
  unfoldable pub connect :
      String → String → String → Fields → Option String → Action ConnectionRecord
  unfolding ◌>>=◌
  connect from_id relation to_id supplied occurred_at = do
    source ← gets (λ l. object host l from_id)
    target ← gets (λ l. object host l to_id)
    from ← or_raise source (unknown_source from_id)
    to ← or_raise target (unknown_target to_id)
    lift (raise_as vocabulary (validate_connection relation from.kind to.kind supplied))
    existing ← gets (λ l. connection host l from_id relation to_id)
    maybe (assert_edge from_id relation to_id supplied occurred_at none)
        (λ c.
          if is_active c
          then existing_edge supplied c
          else assert_edge from_id relation to_id supplied occurred_at (some c.id))
        existing

  abbrev retract_draft : String → String → Draft
  retract_draft from_id reason = record {
    action = "connection_retracted";
    subject_type = "connection";
    subject_id = from_id;
    payload = entry "reason" (str reason) empty;
    evidence_object_id = none;
    idempotency_key = none;
    occurred_at = none;
  }

  -- The UPDATE of `retract`, by the id of the edge.
  unfoldable pub retract_edge : ℕ → ℕ → Ledger → Ledger
  retract_edge edge_id event_id l = record l {
    connections =
        update (λ c. nat_eq c.id edge_id) (λ c. record c { retracted_event_id = some event_id })
          l.connections;
  }

  -- `WriteSession.retract`
  unfoldable pub retract : String → String → String → String → Action (Unit {0})
  unfolding ◌>>=◌
  retract from_id relation to_id reason = do
    existing ← gets (λ l. connection host l from_id relation to_id)
    c ← or_raise existing (no_connection from_id relation to_id)
    if not (is_active c) then pure tt else do
      e ← record_event host (retract_draft from_id reason)
      modify (retract_edge c.id e.id)
