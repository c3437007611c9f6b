-- ===== src/Store/Last.antt =====
-- The last event of a block (ledger/store.py `WriteSession.record`).
use lean_evolve.Prelude.{
  String, ◌≡◌, sym, ap, subst, ◌∙◌, none, ◌∷◌, Except, ok, arith, ok-injective,
}
use lean_evolve.Value.{Host}
use lean_evolve.Events.{Draft, Event, EventRow, event_from_row}
use lean_evolve.Events.Prepared.{prepare-IsPrepared}
use lean_evolve.Store.Exec.{LedgerError, Session, Action, pure, ◌>>=◌}
use lean_evolve.Store.Session.{record_event, existing_event}
use lean_evolve.Store.Append.{Recorded, failed, appended, found, record_event-Recorded}
use lean_evolve.Store.Growth.{IsAtHead, Keeps}
use lean_evolve.Store.History.{stored_row, read_back}
use lean_evolve.Store.Edges.View.{>>=-returns}

module _ (host : Host) where
  -- `t` is `s` with an event of this action about this subject.
  pub record IsLast (action_ subject_ : String) (e : Event) (s t : Session) : Type 0 where
    pub row : EventRow
    pub on_top : t.ledger.events ≡ row ∷ s.ledger.events
    pub reads : event_from_row host row ≡ e
    pub action : e.action ≡ action_
    pub subject : e.subject_id ≡ subject_
    pub same_objects : t.ledger.objects ≡ s.ledger.objects

  Recorded-IsLast :
      {draft : Draft} {s t : Session} {r : Except LedgerError Event} {e : Event}
      → Recorded host draft s r t
      → draft.idempotency_key ≡ none
      → IsAtHead host s
      → r ≡ ok e
      → IsLast draft.action draft.subject_id e s t
  unfolding existing_event
  Recorded-IsLast (failed x) keyless h q = absurd (ground arith)
  Recorded-IsLast {s = s} (found k x) keyless h q =
      let missing = ap (λ o. existing_event host o s.ledger) keyless in
      absurd (ground (arith, k, missing))
  Recorded-IsLast {draft} {s} (appended a) keyless h q =
      let same = ok-injective q in
      let p =
        prepare-IsPrepared host (s.clock s.next_id) s.next_id s.envelope draft s.previous_hash
          a.prepared in
      record {
        row = a.row;
        on_top = stored_row host a h;
        reads = read_back host a ∙ same;
        action = ap (λ (x : Event). x.action) (sym same ∙ p.built);
        subject = ap (λ (x : Event). x.subject_id) (sym same ∙ p.built);
        same_objects = ap (λ (x : Session). x.ledger.objects) a.moved;
      }

  pub record_event-IsLast :
      (draft : Draft) (s t : Session) (e : Event)
      → draft.idempotency_key ≡ none
      → IsAtHead host s
      → record_event host draft s ≡ (ok e, t)
      → IsLast draft.action draft.subject_id e s t
  record_event-IsLast draft s t e keyless h q =
      subst (IsLast draft.action draft.subject_id e s)
        (ap (λ (p : Except LedgerError Event × Session). p.1) q)
        (Recorded-IsLast (record_event-Recorded host draft s) keyless h
          (ap (λ (p : Except LedgerError Event × Session). p.0) q))

  -- When the action returns, its last event has this action and is about this subject.
  pub record Ends (action subject : String) {A : Type 0} (m : Action A) : Type 0 where
    pub at :
        (s t : Session) (a : A)
        → IsAtHead host s
        → m s ≡ (ok a, t)
        → (u : Session) × (e : Event) × IsAtHead host u × IsLast action subject e u t

  pub Ends-record_event :
      (draft : Draft)
      → draft.idempotency_key ≡ none
      → Ends draft.action draft.subject_id (record_event host draft)
  Ends-record_event draft keyless = record {
    at = λ s t e h q. (s, e, h, record_event-IsLast draft s t e keyless h q);
  }

  module _ {A B : Type 0} where
    -- After an action that keeps the history.
    pub Ends-after :
        (action subject : String) (m : Action A) (f : A → Action B)
        → Keeps host m
        → ((a : A) → Ends action subject (f a))
        → Ends action subject (m >>= f)
    Ends-after action subject m f k l = record {
      at = λ s t b h q.
          let (a, _, rest) = >>=-returns m f s q in
          (l a).at (m s).1 t b ((k.at s).from_head h).at_head rest;
    }

    -- Before a `return`.
    pub Ends-before :
        (action subject : String) (m : Action A) (g : A → B)
        → Ends action subject m
        → Ends action subject (m >>= λ a. pure (g a))
    unfolding pure
    Ends-before action subject m g k = record {
      at = λ s t b h q.
          let (a, r, rest) = >>=-returns m (λ a. pure (g a)) s q in
          let end = ap (λ (p : Except LedgerError B × Session). p.1) rest in
          let (u, e, at_head, last) = k.at s (m s).1 a h (λ i. (r i, (m s).1)) in
          (u, e, at_head, subst (IsLast action subject e u) end last);
    }
