-- ===== src/Store/Edges/Writes.antt =====
-- The rows that `connect` and `retract` write (ledger/store.py).
use lean_evolve.Prelude.{
  find-Member, nat_eq_sound, ℕ, String, ◌≡◌, refl, sym, ap, subst, ◌∙◌, true, Option, none, some,
  List, [], ◌∷◌, ◌++◌, find, nat_eq, arith, eq_iff,
}
use lean_evolve.Value.{dict, Fields, Host}
use lean_evolve.Vocabulary.Accepted.{IsAccepted}
use lean_evolve.Store.Tables.{
  Ledger, ObjectRecord, object, ConnectionRow, is_edge, next_connection_id, update,
}
use lean_evolve.Store.Exec.{Session, modify}
use lean_evolve.Store.Connections.{write_edge, retract_edge}
use lean_evolve.Store.Edges.Still.{edges}
use lean_evolve.Store.Edges.Rows.{
  Ascend-same, Ascend-append, Ascend-update, IsEdge, AreEdges, All-append, All-update,
}

is_edge-ends :
    (f r t : String) (c : ConnectionRow)
    → is_edge f r t c ≡ true
    → (c.from_id ≡ f) × (c.relation ≡ r) × (c.to_id ≡ t)
is_edge-ends f r t c h = ground (arith, eq_iff c.from_id f, eq_iff c.relation r, eq_iff c.to_id t)

-- What `connect` knows of the row that it writes over.
abbrev pub Known : String → String → String → Option ℕ → List ConnectionRow → Type 0
Known f r t none cs = Unit
Known f r t (some k) cs =
    (row : ConnectionRow) × (find (is_edge f r t) cs ≡ some row) × (k ≡ row.id)

module _ (host : Host) (l : Ledger) where
  module _ (f r t : String) (d : Fields) (from to : ObjectRecord)
      (from_there : object host l f ≡ some from) (to_there : object host l t ≡ some to)
      (ok_edge : IsAccepted r from.kind to.kind d) where
    written-IsEdge :
        (c : ConnectionRow)
        → (c.from_id ≡ f) × (c.relation ≡ r) × (c.to_id ≡ t)
        → host.dumps (dict d) ≡ some c.properties_json
        → IsEdge host l c
    written-IsEdge c (at_f, at_r, at_t) text = record {
      from = from;
      to = to;
      from_there = ap (object host l) at_f ∙ from_there;
      to_there = ap (object host l) at_t ∙ to_there;
      supplied = d;
      accepted = subst (λ x. IsAccepted x from.kind to.kind d) (sym at_r) ok_edge;
      stored = text;
    }

    -- A new row behind the others.
    append-AreEdges :
        (cs : List ConnectionRow) (c : ConnectionRow)
        → AreEdges host l cs
        → c.id ≡ next_connection_id cs
        → (c.from_id ≡ f) × (c.relation ≡ r) × (c.to_id ≡ t)
        → host.dumps (dict d) ≡ some c.properties_json
        → AreEdges host l (cs ++ c ∷ [])
    append-AreEdges cs c h next same text = record {
      ascend = Ascend-append cs c h.ascend next;
      all = All-append (IsEdge host l) cs c h.all (written-IsEdge c same text);
    }

    -- The row of the edge is written over.
    reassert-AreEdges :
        (cs : List ConnectionRow) (row : ConnectionRow) (text : String) (event_id : ℕ)
        → AreEdges host l cs
        → find (is_edge f r t) cs ≡ some row
        → host.dumps (dict d) ≡ some text
        → AreEdges host l (
            update
              (λ (c : ConnectionRow). nat_eq c.id row.id)
              (λ (c : ConnectionRow). record c {
                properties_json = text;
                created_event_id = event_id;
                retracted_event_id = none;
              })
              cs)
    reassert-AreEdges cs row text event_id h seen stored =
        let (m, test) = find-Member (is_edge f r t) cs row seen in
        record {
          ascend = Ascend-update _ _ (λ c. refl) 0 0 cs refl h.ascend;
          all =
              All-update (IsEdge host l) _ _ cs
                (λ c n q p.
                  let e = Ascend-same 0 cs c row h.ascend n m (nat_eq_sound c.id row.id q) in
                  written-IsEdge _ (is_edge-ends f r t c (ap (is_edge f r t) e ∙ test)) stored)
                h.all;
        }

    pub write_edge-AreEdges :
        (known : Option ℕ) (text : String) (event_id : ℕ) (s : Session)
        → AreEdges host l (edges s)
        → Known f r t known (edges s)
        → host.dumps (dict d) ≡ some text
        → AreEdges host l (edges (modify (write_edge host f r t known text event_id) s).1)
    unfolding modify write_edge
    write_edge-AreEdges none text event_id s h k stored =
        append-AreEdges (edges s) _ h refl (refl, refl, refl) stored
    write_edge-AreEdges (some k) text event_id s h (row, seen, same) stored =
        subst
          (λ n. AreEdges host l (
            update (λ (c : ConnectionRow). nat_eq c.id n)
              (λ (c : ConnectionRow). record c {
                properties_json = text;
                created_event_id = event_id;
                retracted_event_id = none;
              })
              (edges s)))
          (sym same) (reassert-AreEdges (edges s) row text event_id h seen stored)

  pub retract_edge-AreEdges :
      (edge_id event_id : ℕ) (s : Session)
      → AreEdges host l (edges s)
      → AreEdges host l (edges (modify (retract_edge host edge_id event_id) s).1)
  unfolding modify retract_edge
  retract_edge-AreEdges edge_id event_id s h = record {
    ascend = Ascend-update _ _ (λ c. refl) 0 0 (edges s) refl h.ascend;
    all =
        All-update (IsEdge host l) _ _ (edges s)
          (λ c n q p. record {
            from = p.from;
            to = p.to;
            from_there = p.from_there;
            to_there = p.to_there;
            supplied = p.supplied;
            accepted = p.accepted;
            stored = p.stored;
          })
          h.all;
  }
