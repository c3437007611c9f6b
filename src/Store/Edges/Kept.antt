-- ===== src/Store/Edges/Kept.antt =====
-- The methods of ledger/store.py that write connections, `connect` and `retract`, and the rest of a
-- block. `last` is the ledger that the block leaves.
use lean_evolve.Prelude.{
  ℕ, String, ◌≡◌, refl, sym, ap, subst, ◌∙◌, inl, inr, Bool, true, false, not, Option, none, some,
  List, find, maybe, if◌then◌else◌, Except, ok, err, Bool-cases, Option-cases, some_inj,
  ok-injective, raise_as, arith,
}
use lean_evolve.Value.{Fields, Host}
use lean_evolve.Vocabulary.Validate.{VocabularyError, validate_connection}
use lean_evolve.Vocabulary.Accepted.{IsAccepted, validate_connection-IsAccepted}
use lean_evolve.Store.Tables.{
  Ledger, ObjectRecord, ConnectionRow, ConnectionRecord, is_active, is_edge, object, connection,
  connection_from_row,
}
use lean_evolve.Store.Exec.{
  LedgerError, Session, Action, vocabulary, pure, raise, lift, gets, modify, ◌>>=◌, or_raise,
  assertion,
}
use lean_evolve.Events.{Draft}
use lean_evolve.Store.Persist.{Persists, Persists-trans}
use lean_evolve.Store.Persist.Methods.{connect-Stays}
use lean_evolve.Store.Session.{record_event}
use lean_evolve.Store.Exec.{unknown_source, unknown_target, no_connection}
use lean_evolve.Store.Connections.{
  write_edge, assert_edge, existing_edge, connect, retract_edge, retract,
}
use lean_evolve.Store.Edges.Still.{
  Still, edges, Still-pure, Still-lift, Still-gets, Still-or_raise, Still-raise_when, Still-bind,
  Still-record_event,
}
use lean_evolve.Store.Edges.Writes.{Known, write_edge-AreEdges, retract_edge-AreEdges}
use lean_evolve.Store.Edges.Rows.{AreEdges}

or_raise-eq-ok :
    {A : Type 0} {a : A} (o : Option A) (e : LedgerError) (s : Session)
    → (or_raise o e s).0 ≡ ok a
    → o ≡ some a
unfolding pure raise
or_raise-eq-ok none e s h = absurd (ground arith)
or_raise-eq-ok (some b) e s h = ap some (ok-injective h)

gets-eq-ok :
    {A : Type 0} {a : A} (f : Ledger → A) (s : Session) → (gets f s).0 ≡ ok a → f s.ledger ≡ a
unfolding gets
gets-eq-ok f s h = ok-injective h

lift-eq-ok :
    {A : Type 0} {a : A} (m : Except LedgerError A) (s : Session) → (lift m s).0 ≡ ok a → m ≡ ok a
unfolding lift
lift-eq-ok m s h = h

raise_as-eq-ok :
    {A : Type 0} {a : A} (m : Except VocabularyError A) → raise_as vocabulary m ≡ ok a → m ≡ ok a
raise_as-eq-ok m h = ground arith

module _ (host : Host) where
  pub existing_edge-Still : (d : Fields) (c : ConnectionRecord) → Still (existing_edge host d c)
  unfolding existing_edge
  existing_edge-Still d c = search (Still-pure, Still-or_raise, Still-raise_when, Still-bind)

module _ (host : Host) (last : Ledger) where
  -- After a step that leaves the connections alone, the rest decides.
  module _ {A B : Type 0} where
    rest :
        (r : Except LedgerError A) (f : A → Action B) (t : Session)
        → AreEdges host last (edges t)
        → ((a : A) → r ≡ ok a → AreEdges host last (edges (f a t).1))
        → AreEdges host last (edges ((lift r >>= f) t).1)
    unfolding ◌>>=◌
    rest (ok a) f t h k = k a refl
    rest (err e) f t h k = h

    bind_still :
        (m : Action A) (f : A → Action B) (s : Session)
        → Still m
        → AreEdges host last (edges s)
        → ((a : A) (u : Session)
            → (m s).0 ≡ ok a
            → edges u ≡ edges s
            → AreEdges host last (edges u)
            → AreEdges host last (edges (f a u).1))
        → AreEdges host last (edges ((m >>= f) s).1)
    unfolding ◌>>=◌
    bind_still m f s still h k =
        let same = still.at s in
        let there = subst (AreEdges host last) (sym same) h in
        rest (m s).0 f (m s).1 there (λ a r. k a (m s).1 r same there)

    bind_last :
        (m : Action A) (f : A → Action B) (s : Session)
        → ((a : A) → Still (f a))
        → AreEdges host last (edges (m s).1)
        → AreEdges host last (edges ((m >>= f) s).1)
    unfolding ◌>>=◌
    bind_last m f s still h =
        rest (m s).0 f (m s).1 h (λ a r. subst (AreEdges host last) (sym ((still a).at (m s).1)) h)

  assert_edge-AreEdges :
      (f r t : String) (d : Fields) (from to : ObjectRecord)
      → object host last f ≡ some from
      → object host last t ≡ some to
      → IsAccepted r from.kind to.kind d
      → (at : Option String) (known : Option ℕ) (s : Session) → AreEdges host last (edges s)
      → Known f r t known (edges s)
      → AreEdges host last (edges (assert_edge host f r t d at known s).1)
  unfolding assert_edge
  assert_edge-AreEdges f r t d from to a b accepted at known s h k =
      bind_still _ _ s (Still-record_event host _) h (λ e u _ same_u hu.
        bind_still _ _ u (Still-or_raise _ _) hu (λ text v stored same_v hv.
          bind_last (modify (write_edge host f r t known text e.id))
            (λ _. gets (λ l. connection host l f r t) >>= λ c. or_raise c assertion) v
            (λ _. Still-bind _ _ (Still-gets _) (λ c. Still-or_raise c assertion))
            (write_edge-AreEdges host last f r t d from to a b accepted known text e.id v hv
              (subst (Known f r t known) (sym (same_v ∙ same_u)) k) (or_raise-eq-ok _ _ u stored))))

  -- The edge that the read finds is a row of the table.
  connection-row :
      (l : Ledger) (f r t : String) (c : ConnectionRecord)
      → connection host l f r t ≡ some c
      → (row : ConnectionRow) × (find (is_edge f r t) l.connections ≡ some row) × (c.id ≡ row.id)
  unfolding connection connection_from_row
  connection-row l f r t c h = elim (Option-cases (find (is_edge f r t) l.connections)) [
    | inl absent ↦ absurd (ground (arith, rw absent at h))
    | inr (row, seen) ↦
        (row, seen, ap (λ (x : ConnectionRecord). x.id) (sym (some_inj (rw seen at h))))
  ]

  connection-edges :
      (f r t : String) (s u : Session)
      → edges u ≡ edges s
      → connection host u.ledger f r t ≡ connection host s.ledger f r t
  unfolding connection
  connection-edges f r t s u q =
      ap
        (λ (cs : List ConnectionRow).
          maybe none (λ (c : ConnectionRow). some (connection_from_row host c))
            (find (is_edge f r t) cs))
        q

  -- An action that keeps the invariant of the connections, whose objects `last` still has.
  pub record Guards {A : Type 0} (m : Action A) : Type 0 where
    pub at :
        (s : Session)
        → Persists host (m s).1.ledger last
        → AreEdges host last (edges s)
        → AreEdges host last (edges (m s).1)

  pub Guards-Still : {A : Type 0} (m : Action A) → Still m → Guards m
  Guards-Still m still = record { at = λ s p h. subst (AreEdges host last) (sym (still.at s)) h }

  chosen-AreEdges :
      (f r t : String) (d : Fields) (at : Option String) (from to : ObjectRecord)
      → object host last f ≡ some from
      → object host last t ≡ some to
      → IsAccepted r from.kind to.kind d
      → (existing : Option ConnectionRecord) (s : Session)
      → connection host s.ledger f r t ≡ existing
      → AreEdges host last (edges s)
      → AreEdges host last (
          edges
            (maybe
              (assert_edge host f r t d at none)
              (λ c.
                if is_active c
                then existing_edge host d c
                else assert_edge host f r t d at (some c.id))
              existing
              s).1)
  chosen-AreEdges f r t d at from to a b accepted none s e h =
      assert_edge-AreEdges f r t d from to a b accepted at none s h tt
  chosen-AreEdges f r t d at from to a b accepted (some c) s e h = elim (Bool-cases (is_active c)) [
    | inl active ↦
        rw active (subst (AreEdges host last) (sym ((existing_edge-Still host d c).at s)) h)
    | inr retracted ↦ rw retracted (
        assert_edge-AreEdges f r t d from to a b accepted at (some c.id) s h
          (connection-row s.ledger f r t c e))
  ]

  pub connect-Guards :
      (f r t : String) (d : Fields) (at : Option String) → Guards (connect host f r t d at)
  unfolding connect
  connect-Guards f r t d at = record {
    at = λ s p h.
        let stay = Persists-trans host ((connect-Stays host f r t d at).at s) p in
        bind_still (or_raise (object host s.ledger f) (unknown_source f)) _ s (Still-or_raise _ _) h
          (λ (from : ObjectRecord) u3 seen _ h3.
            bind_still (or_raise (object host s.ledger t) (unknown_target t)) _ u3
              (Still-or_raise _ _) h3
              (λ (to : ObjectRecord) u4 met _ h4.
                bind_still (lift (raise_as vocabulary (validate_connection r from.kind to.kind d)))
                  _ u4 (Still-lift _) h4
                  (λ declared u5 checked _ h5.
                    chosen-AreEdges f r t d at from to
                      (stay.objects_kept f from (or_raise-eq-ok _ _ s seen))
                      (stay.objects_kept t to (or_raise-eq-ok _ _ u3 met))
                      (validate_connection-IsAccepted r from.kind to.kind d
                        (raise_as-eq-ok _ (lift-eq-ok _ u4 checked)))
                      (connection host u5.ledger f r t) u5 refl h5)));
  }

  recorded_retract :
      (c : ConnectionRecord) (draft : Draft) (active : Bool) (s : Session)
      → AreEdges host last (edges s)
      → AreEdges host last (
          edges
            ((if not active
                then pure tt
                else record_event host draft >>= λ e. modify (retract_edge host c.id e.id))
              s).1)
  recorded_retract c draft true s h =
      bind_still _ _ s (Still-record_event host draft) h
        (λ e u _ _ k. retract_edge-AreEdges host last c.id e.id u k)
  recorded_retract c draft false s h = subst (AreEdges host last) (sym ((Still-pure tt).at s)) h

  pub retract-Guards : (f r t reason : String) → Guards (retract host f r t reason)
  unfolding retract
  retract-Guards f r t reason = record {
    at = λ s p h.
        bind_still (or_raise (connection host s.ledger f r t) (no_connection f r t)) _ s
          (Still-or_raise _ _) h
          (λ (c : ConnectionRecord) u2 _ _ h2. recorded_retract c _ (is_active c) u2 h2);
  }
