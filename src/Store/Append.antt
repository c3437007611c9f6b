-- ===== src/Store/Append.antt =====
-- What `WriteSession.record` does to the session (ledger/store.py), on every branch.
use lean_evolve.Prelude.{
  ◌+◌, String, ◌≡◌, refl, ◌⊎◌, inl, inr, Bool, true, false, Option, none, some, [], ◌∷◌, ◌++◌, any,
  Bool-cases, Option-cases, Except-cases, Except, ok, err,
}
use lean_evolve.Value.{Host}
use lean_evolve.Events.{Draft, Event, EventError, EventRow, prepare, event_row}
use lean_evolve.Store.Tables.{Ledger, clashes, place_event, object_exists}
use lean_evolve.Store.Exec.{LedgerError, unknown_evidence, unencodable, integrity, Session, ◌>>=◌}
use lean_evolve.Store.Session.{
  insert_event, advance, prepared, check_evidence, append_event, existing_event, record_event,
}

-- The evidence that an event names, if any, is an object of the ledger.
abbrev pub evidence_known : Option String → Ledger → Bool
evidence_known none l = true
evidence_known (some id) l = object_exists l id

module _ (host : Host) where
  abbrev pub preparation : Draft → Session → Except EventError Event
  preparation draft s = prepare host (s.clock s.next_id) s.next_id s.envelope draft s.previous_hash

  -- The session after an event: its row stands in the table, the counters point behind it.
  abbrev pub after : Session → Event → EventRow → Session
  after s e row = record s {
    ledger = record s.ledger { events = place_event row s.ledger.events };
    next_id = s.next_id + 1;
    previous_hash = e.event_hash;
    written = s.written ++ e ∷ [];
  }

  pub record IsAppended (draft : Draft) (s : Session) (e : Event) (s' : Session) : Type 0 where
    pub row : EventRow
    pub prepared : preparation draft s ≡ ok e
    pub written : event_row host e ≡ some row
    pub known : evidence_known draft.evidence_object_id s.ledger ≡ true
    pub fresh : any (clashes row) s.ledger.events ≡ false
    pub moved : s' ≡ after s e row

  -- A result of `record` and the session that it leaves: an error leaves the session alone, an event
  -- is a new one or has the key that the draft gives.
  pub data Recorded (draft : Draft) (s : Session)
      : Except LedgerError Event → Session → Type 0 where
    failed : {e : LedgerError} {s' : Session} → s' ≡ s → Recorded draft s (err e) s'
    appended : {e : Event} {s' : Session} → IsAppended draft s e s' → Recorded draft s (ok e) s'
    found :
        {e : Event} {s' : Session}
        → existing_event host draft.idempotency_key s.ledger ≡ some e
        → s' ≡ s
        → Recorded draft s (ok e) s'

  abbrev inserted : Session → EventRow → Session
  inserted s row = record s {
    ledger = record s.ledger { events = place_event row s.ledger.events };
  }

  check_evidence-cases :
      (o : Option String) (s : Session)
      → ((check_evidence host o s ≡ (ok tt, s)) × (evidence_known o s.ledger ≡ true))
        ⊎ ((e : LedgerError) × (check_evidence host o s ≡ (err e, s)))
  unfolding check_evidence ◌>>=◌
  check_evidence-cases none s = inl (refl, refl)
  check_evidence-cases (some id) s = elim (Bool-cases (object_exists s.ledger id)) [
    | inl yes_known ↦ inl (rw yes_known, yes_known)
    | inr unknown ↦ inr (unknown_evidence id, rw unknown)
  ]

  insert_event-cases :
      (e : Event) (s : Session)
      → ((row : EventRow) × (insert_event host e s ≡ (ok tt, inserted s row))
          × (event_row host e ≡ some row)
          × (any (clashes row) s.ledger.events ≡ false))
        ⊎ ((x : LedgerError) × (insert_event host e s ≡ (err x, s)))
  unfolding insert_event ◌>>=◌
  insert_event-cases e s = elim (Option-cases (event_row host e)) [
    | inl bad ↦ inr (unencodable, rw bad)
    | inr (row, w) ↦ elim (Bool-cases (any (clashes row) s.ledger.events)) [
      | inl taken ↦ inr (integrity "events", rw (w, taken))
      | inr fresh ↦ inl (row, rw (w, fresh), w, fresh)
    ]
  ]

  append_event-Recorded :
      (draft : Draft) (s : Session)
      → Recorded draft s (append_event host draft s).0 (append_event host draft s).1
  unfolding append_event prepared advance ◌>>=◌
  append_event-Recorded draft s = elim (check_evidence-cases draft.evidence_object_id s) [
    | inr (x, e1) ↦ rw e1 (failed refl)
    | inl (e1, known) ↦ rw e1 (elim (Except-cases (preparation draft s)) [
      | inr (x, e2) ↦ rw e2 (failed refl)
      | inl (e, e2) ↦ rw e2 (elim (insert_event-cases e s) [
        | inr (x, e3) ↦ rw e3 (failed refl)
        | inl (row, e3, w, fresh) ↦ rw e3 (
            appended (record {
              row = row;
              prepared = e2;
              written = w;
              known = known;
              fresh = fresh;
              moved = refl;
            }))
      ])
    ])
  ]

  -- `record` fails and leaves the session alone, or returns the event that already has the key and
  -- leaves the session alone, or appends one event.
  pub record_event-Recorded :
      (draft : Draft) (s : Session)
      → Recorded draft s (record_event host draft s).0 (record_event host draft s).1
  unfolding record_event ◌>>=◌
  record_event-Recorded draft s =
      elim (Option-cases (existing_event host draft.idempotency_key s.ledger)) [
        | inl new ↦ rw new (append_event-Recorded draft s)
        | inr (e, old) ↦ rw old (found old refl)
      ]
