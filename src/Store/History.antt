-- ===== src/Store/History.antt =====
-- The history of a session and the event that `record` appends to it (ledger/store.py
-- `WriteSession.record`).
use lean_evolve.Prelude.{
  suc, ◌<◌, String, ◌≡◌, refl, sym, ap, subst, ◌∙◌, true, some, List, [], ◌∷◌, map, All, Except,
  arith, some_inj,
}
use lean_evolve.Vocabulary.Contracts.{IsContracted}
use lean_evolve.Value.{Host}
use lean_evolve.Events.{Draft, Event, EventRow, event_from_row}
use lean_evolve.Events.Chain.{head_id, head_hash, IsLink}
use lean_evolve.Events.Prepared.{prepare-IsPrepared, event_from_row-event_row}
use lean_evolve.Store.Tables.{place_event, object_exists}
use lean_evolve.Store.Exec.{LedgerError, Session}
use lean_evolve.Store.Append.{IsAppended, Recorded, failed, appended, found, record_event-Recorded}
use lean_evolve.Store.Growth.{
  IsLawful, history, IsAtHead, Extends, Grows, Grows-refl, Keeps, All-IsLawful-mono,
}
use lean_evolve.Store.Session.{record_event}

module _ (host : Host) where
  place_event_newest :
      (r : EventRow) (rows : List EventRow)
      → head_id (map (event_from_row host) rows) < r.id
      → place_event r rows ≡ r ∷ rows
  unfolding place_event event_from_row
  place_event_newest r [] h = refl
  place_event_newest r (x ∷ rows) h = ground arith

  id-event_from_row : (r : EventRow) → (event_from_row host r).id ≡ r.id
  unfolding event_from_row
  id-event_from_row r = refl

  module _ {draft : Draft} {s t : Session} {e : Event} (a : IsAppended host draft s e t) where
    pub read_back : event_from_row host a.row ≡ e
    read_back =
        let (row, w, r) =
          event_from_row-event_row host (s.clock s.next_id) s.next_id s.envelope draft
            s.previous_hash a.prepared in
        let q : row ≡ a.row = some_inj (sym w ∙ a.written) in ap (event_from_row host) (sym q) ∙ r

    new-IsLink : IsAtHead host s → IsLink host e (history host s.ledger)
    new-IsLink h =
        let p =
          prepare-IsPrepared host (s.clock s.next_id) s.next_id s.envelope draft s.previous_hash
            a.prepared in
        record {
          numbered = ap (λ (x : Event). x.id) p.built ∙ h.numbered;
          linked = ap (λ (x : Event). x.previous_event_hash) p.built ∙ h.linked;
          sealed = p.hashed ∙ ap some (sym (ap (λ (x : Event). x.event_hash) p.built));
        }

    new-IsLawful : IsLawful host s.ledger e
    new-IsLawful =
        let p =
          prepare-IsPrepared host (s.clock s.next_id) s.next_id s.envelope draft s.previous_hash
            a.prepared in
        let who = ap (λ (x : Event). x.actor_class) p.built in
        let what = ap (λ (x : Event). x.action) p.built in
        let proof = ap (λ (x : Event). x.evidence_object_id) p.built in
        record {
          permitted = rw (who, what) p.permitted;
          declared = p.declared;
          supplied = draft.payload;
          contracted =
              subst (λ a. IsContracted a draft.payload e.evidence_object_id p.declared) (sym what)
                (subst (λ o. IsContracted draft.action draft.payload o p.declared) (sym proof)
                  p.contracted);
          source =
              let (t, written, read) = p.source in
              (t, written, read ∙ sym (ap (λ (x : Event). x.payload) p.built));
          known = rw proof a.known;
        }

    pub stored_row : IsAtHead host s → t.ledger.events ≡ a.row ∷ s.ledger.events
    stored_row h =
        let l = new-IsLink h in
        let same_id : a.row.id ≡ e.id =
          sym (id-event_from_row a.row) ∙ ap (λ (x : Event). x.id) read_back in
        ap (λ (x : Session). x.ledger.events) a.moved
        ∙ place_event_newest a.row s.ledger.events (omega (arith, same_id, l.numbered))

    stored : IsAtHead host s → history host t.ledger ≡ e ∷ history host s.ledger
    stored h =
        ap (map (event_from_row host)) (stored_row h)
        ∙ ap (λ x. x ∷ history host s.ledger) read_back

    same_objects :
        (id : String) → object_exists s.ledger id ≡ true → object_exists t.ledger id ≡ true
    unfolding object_exists
    same_objects id k = ap (λ (x : Session). object_exists x.ledger id) a.moved ∙ k

    stored_actor : a.row.actor_class ≡ s.envelope.actor_class
    unfolding event_from_row
    stored_actor =
        let p =
          prepare-IsPrepared host (s.clock s.next_id) s.next_id s.envelope draft s.previous_hash
            a.prepared in
        ap (λ (x : Event). x.actor_class) read_back ∙ ap (λ (x : Event). x.actor_class) p.built

    appended-Extends : IsAtHead host s → Extends host s t
    appended-Extends h =
        let l = new-IsLink h in
        let q = stored h in
        let counted = ap (λ (x : Session). x.next_id) a.moved in
        let hashed = ap (λ (x : Session). x.previous_hash) a.moved in
        record {
          added = a.row ∷ [];
          extended = stored_row h;
          authored = (stored_actor, tt);
          at_head = record {
            sound = record {
              chain = rw q (l, h.sound.chain);
              lawful = subst (All (IsLawful host t.ledger)) (sym q) (
                  All-IsLawful-mono host s.ledger t.ledger (e ∷ history host s.ledger) same_objects
                    (new-IsLawful, h.sound.lawful));
            };
            numbered =
                counted
                ∙ omega (arith, l.numbered, h.numbered)
                ∙ ap (λ es. suc (head_id es)) (sym q);
            linked = hashed ∙ ap head_hash (sym q);
          };
        }

  Recorded-Grows :
      {draft : Draft} {s t : Session} {r : Except LedgerError Event}
      → Recorded host draft s r t
      → Grows host s t
  Recorded-Grows {s = s} (failed e) = subst (Grows host s) (sym e) (Grows-refl host s)
  Recorded-Grows {s = s} (found k e) = subst (Grows host s) (sym e) (Grows-refl host s)
  Recorded-Grows (appended a) = record {
    objects_stay = same_objects a;
    same_envelope = ap (λ (x : Session). x.envelope) a.moved;
    from_head = appended-Extends a;
  }

  pub Keeps-record_event : (draft : Draft) → Keeps host (record_event host draft)
  Keeps-record_event draft = record {
    at = λ s. Recorded-Grows (record_event-Recorded host draft s);
  }
