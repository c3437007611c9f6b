-- ===== src/Store/Session.antt =====
-- ledger/store.py `WriteSession.record`: events.
use lean_evolve.Prelude.{
  ◌+◌, String, not, Option, none, some, [], ◌∷◌, ◌++◌, any, maybe, ok, raise_as,
}
use lean_evolve.Value.{Fields, Host}
use lean_evolve.Events.{Draft, Event, prepare, event_row}
use lean_evolve.Store.Tables.{Ledger, clashes, place_event, object_exists, event_by_key}
use lean_evolve.Store.Exec.{
  unknown_evidence, event, unencodable, integrity, Action, pure, gets, modify, ◌>>=◌, ◌>>◌,
  raise_when, or_raise,
}

-- An event about an object, with no evidence and no key: the defaults of `WriteSession.record`.
abbrev pub plain : String → String → Fields → Draft
plain action subject_id payload = record {
  action = action;
  subject_type = "object";
  subject_id = subject_id;
  payload = payload;
  evidence_object_id = none;
  idempotency_key = none;
  occurred_at = none;
}

module _ (host : Host) where
  -- `Ledger._insert_event`
  unfoldable pub insert_event : Event → Action (Unit {0})
  unfolding ◌>>=◌
  insert_event e = do
    row ← or_raise (event_row host e) unencodable
    taken ← gets (λ l. any (clashes row) l.events)
    raise_when taken (integrity "events")
    modify (λ l. record l { events = place_event row l.events })

  -- The session's counters after an event.
  unfoldable pub advance : Event → Action Event
  advance e s = (
    ok e,
    record s {
      next_id = s.next_id + 1;
      previous_hash = e.event_hash;
      written = s.written ++ e ∷ [];
    },
  )

  -- `prepare` with the id, the hash and the envelope of the session
  unfoldable pub prepared : Draft → Action Event
  prepared draft s = (
    raise_as event (prepare host (s.clock s.next_id) s.next_id s.envelope draft s.previous_hash),
    s,
  )

  -- `if evidence_object_id is not None and not self.ledger._object_exists(…)`
  unfoldable pub check_evidence : Option String → Action (Unit {0})
  unfolding ◌>>=◌
  check_evidence none = pure tt
  check_evidence (some id) = do
    known ← gets (λ l. object_exists l id)
    raise_when (not known) (unknown_evidence id)

  -- `WriteSession.record`, for a key that is not used yet
  unfoldable pub append_event : Draft → Action Event
  unfolding ◌>>=◌
  append_event draft = do
    check_evidence draft.evidence_object_id
    e ← prepared draft
    insert_event e
    advance e

  -- `self.ledger._event_by_key(idempotency_key)`, where there is a key
  unfoldable pub existing_event : Option String → Ledger → Option Event
  existing_event none l = none
  existing_event (some key) l = event_by_key host l key

  -- `WriteSession.record`
  unfoldable pub record_event : Draft → Action Event
  unfolding ◌>>=◌
  record_event draft = do
    existing ← gets (existing_event draft.idempotency_key)
    maybe (append_event draft) pure existing
