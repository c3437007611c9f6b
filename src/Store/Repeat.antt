-- ===== src/Store/Repeat.antt =====
-- ledger/store.py `WriteSession.record` with an idempotency key that the session has used before.
use lean_evolve.Prelude.{
  String, ◌≡◌, refl, sym, ap, subst, ◌∙◌, none, some, List, ◌∷◌, Except, ok, ok-injective, eq_refl,
  maybe, find,
}
use lean_evolve.Value.{Host}
use lean_evolve.Events.{Draft, Event, EventRow, event_from_row}
use lean_evolve.Events.Prepared.{prepare-IsPrepared}
use lean_evolve.Store.Tables.{Ledger, event_by_key, text_is}
use lean_evolve.Store.Exec.{LedgerError, Session, Action, ◌>>=◌}
use lean_evolve.Store.Block.{Uses}
use lean_evolve.Store.Persist.Methods.{Uses-Stays}
use lean_evolve.Store.Append.{IsAppended, Recorded, failed, appended, found, record_event-Recorded}
use lean_evolve.Store.Growth.{IsAtHead}
use lean_evolve.Store.History.{read_back, stored_row}
use lean_evolve.Store.Session.{existing_event, record_event}

module _ (host : Host) where
  key_of_row : (r : EventRow) → (event_from_row host r).idempotency_key ≡ r.idempotency_key
  unfolding event_from_row
  key_of_row r = refl

  -- The newest row is found by its key.
  by_key_newest :
      (l : Ledger) (r : EventRow) (rows : List EventRow) (key : String)
      → l.events ≡ r ∷ rows
      → r.idempotency_key ≡ some key
      → event_by_key host l key ≡ some (event_from_row host r)
  unfolding event_by_key
  by_key_newest l r rows key p q =
      ap
        (λ (es : List EventRow).
          maybe none (λ (x : EventRow). some (event_from_row host x))
            (find (λ x. text_is x.idempotency_key key) es))
        p
      ∙ rw (q, eq_refl key)

  appended_by_key :
      {draft : Draft} {s t : Session} {e : Event} (key : String)
      → IsAppended host draft s e t
      → IsAtHead host s
      → draft.idempotency_key ≡ some key
      → event_by_key host t.ledger key ≡ some e
  appended_by_key {draft} {s} {t} {e} key a h k =
      let p =
        prepare-IsPrepared host (s.clock s.next_id) s.next_id s.envelope draft s.previous_hash
          a.prepared in
      let q =
        sym (key_of_row a.row)
        ∙ ap (λ (x : Event). x.idempotency_key) (read_back host a ∙ p.built)
        ∙ k in
      by_key_newest t.ledger a.row s.ledger.events key (stored_row host a h) q
      ∙ ap some (read_back host a)

  Recorded-by_key :
      {draft : Draft} {s t : Session} {r : Except LedgerError Event} (e : Event) (key : String)
      → Recorded host draft s r t
      → r ≡ ok e
      → IsAtHead host s
      → draft.idempotency_key ≡ some key
      → event_by_key host t.ledger key ≡ some e
  unfolding existing_event
  Recorded-by_key e key (failed q) x h k = cc
  Recorded-by_key e key (appended a) x h k = appended_by_key key a h k ∙ ap some (ok-injective x)
  Recorded-by_key {draft} {s} {t} e key (found {e = f} old q) x h k =
      let old_key : event_by_key host s.ledger key ≡ some f =
        subst (λ o. existing_event host o s.ledger ≡ some f) k old in
      ap (λ (y : Session). event_by_key host y.ledger key) q ∙ old_key ∙ ap some (ok-injective x)

  event_by_key-again :
      (draft : Draft) (key : String) (s : Session) (e : Event)
      → draft.idempotency_key ≡ some key
      → event_by_key host s.ledger key ≡ some e
      → record_event host draft s ≡ (ok e, s)
  unfolding record_event existing_event ◌>>=◌
  event_by_key-again draft key s e q seen =
      let old : existing_event host draft.idempotency_key s.ledger ≡ some e =
        ap (λ o. existing_event host o s.ledger) q ∙ seen in
      rw old

  -- When a session has recorded a draft with a key and no error, every later record with that key in
  -- that session, after any block of calls of its methods, returns the same event and changes nothing,
  -- whatever the rest of its draft says.
  pub record_event-again :
      (first second : Draft) (key : String) (s t : Session) (e : Event) {A : Type 0}
      (block : Action A)
      → IsAtHead host s
      → Uses host A block
      → first.idempotency_key ≡ some key
      → second.idempotency_key ≡ some key
      → record_event host first s ≡ (ok e, t)
      → record_event host second (block t).1 ≡ (ok e, (block t).1)
  record_event-again first second key s t e block h u p q done =
      let r : Recorded host first s (ok e) t =
        subst (λ (x : Except LedgerError Event × Session). Recorded host first s x.0 x.1) done
          (record_event-Recorded host first s) in
      event_by_key-again second key (block t).1 e q
        (((Uses-Stays host block u).at t).keys_kept key e (Recorded-by_key e key r refl h p))
