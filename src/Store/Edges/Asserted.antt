-- ===== src/Store/Edges/Asserted.antt =====
-- What a reader of the connections sees after `connect` (ledger/store.py).
use lean_evolve.Prelude.{
  nat_eq_refl, ℕ, String, ◌≡◌, refl, sym, ap, subst, ◌∙◌, inl, inr, true, not, ◌&&◌, Option, none,
  some, List, find, maybe, ◌==◌, nat_eq, if◌then◌else◌, Except, ok, Bool-cases, some_inj,
  ok-injective, raise_as, eq_refl,
}
use lean_evolve.Value.{dict, Fields, Host}
use lean_evolve.Vocabulary.Validate.{validate_connection}
use lean_evolve.Store.Tables.{
  Ledger, ObjectRecord, ConnectionRow, ConnectionRecord, fields_of, is_active, is_edge, object,
  connection, connection_from_row, next_connection_id,
}
use lean_evolve.Store.Exec.{
  LedgerError, Session, vocabulary, pure, lift, or_raise, raise_when, unknown_source,
  unknown_target, assertion, unencodable, connection_conflict,
}
use lean_evolve.Store.Session.{record_event}
use lean_evolve.Store.Connections.{write_edge, assert_edge, existing_edge, connect}
use lean_evolve.Store.Edges.Still.{edges, Still-record_event, Still-or_raise}
use lean_evolve.Store.Edges.Kept.{existing_edge-Still}
use lean_evolve.Store.Edges.View.{
  find-append, find-update, >>=-returns, or_raise-returns, row_seen, connection-row_seen,
  row_seen-row, row_seen-none, id-connection_from_row,
}

module _ (host : Host) where
  -- What `connect` knows of the row that it writes: there is none, or this one.
  abbrev Found : String → String → String → Option ℕ → List ConnectionRow → Type 0
  Found f r t none cs = find (is_edge f r t) cs ≡ none
  Found f r t (some k) cs =
      (row : ConnectionRow) × (find (is_edge f r t) cs ≡ some row) × (k ≡ row.id)

  is_edge_refl : (f r t : String) → (f == f && (r == r && t == t)) ≡ true
  is_edge_refl f r t = rw (eq_refl f, eq_refl r, eq_refl t) refl

  -- The row that is written is the one that is found, and it is active.
  write_edge-active :
      (f r t : String) (known : Option ℕ) (text : String) (event_id : ℕ) (l : Ledger)
      (c : ConnectionRecord)
      → Found f r t known l.connections
      → row_seen host f r t (write_edge host f r t known text event_id l).connections ≡ some c
      → is_active c ≡ true
  unfolding write_edge connection_from_row
  write_edge-active f r t none text event_id l c absent h =
      let row : ConnectionRow = record {
        id = next_connection_id l.connections;
        from_id = f;
        relation = r;
        to_id = t;
        properties_json = text;
        created_event_id = event_id;
        retracted_event_id = none;
      } in
      let q = find-append (is_edge f r t) l.connections row absent (is_edge_refl f r t) in
      ap is_active (sym (some_inj (rw q at h)))
  write_edge-active f r t (some k) text event_id l c (row, found, same) h =
      let assert : ConnectionRow → ConnectionRow = λ x. record x {
        properties_json = text;
        created_event_id = event_id;
        retracted_event_id = none;
      } in
      let q =
        find-update (is_edge f r t) (λ (x : ConnectionRow). nat_eq x.id k) assert (λ x. refl)
          l.connections row found (ap (nat_eq row.id) same ∙ nat_eq_refl row.id) in
      ap is_active (sym (some_inj (rw q at h)))

  assert_edge-Shows :
      (f r t : String) (d : Fields) (at : Option String) (known : Option ℕ) (s s' : Session)
      (c : ConnectionRecord)
      → Found f r t known (edges s)
      → assert_edge host f r t d at known s ≡ (ok c, s')
      → (connection host s'.ledger f r t ≡ some c) × (is_active c ≡ true)
  unfolding assert_edge
  assert_edge-Shows f r t d at known s s' c found h =
      let (e, _, h1) = >>=-returns (record_event host _) _ s h in
      let u = (record_event host _ s).1 in
      let (text, _, h2) = >>=-returns (or_raise (host.dumps (dict d)) unencodable) _ u h1 in
      let v = (or_raise (host.dumps (dict d)) unencodable u).1 in
      let same =
        (Still-or_raise (host.dumps (dict d)) unencodable).at u
        ∙ (Still-record_event host _).at s in
      let l = write_edge host f r t known text e.id v.ledger in
      let (read, last) =
        or_raise-returns (connection host l f r t) assertion (record v { ledger = l }) s' h2 in
      (
        ap (λ (x : Session). connection host x.ledger f r t) (sym last) ∙ read,
        write_edge-active f r t known text e.id v.ledger c
            (subst (Found f r t known) (sym same) found)
            (sym (connection-row_seen host l f r t) ∙ read),
      )

  existing_edge-returns :
      (d : Fields) (o c : ConnectionRecord) (s s' : Session)
      → existing_edge host d o s ≡ (ok c, s')
      → (o ≡ c) × (edges s' ≡ edges s)
  unfolding existing_edge pure
  existing_edge-returns d o c s s' h =
      let m1 = or_raise (host.dumps (dict (fields_of o.properties))) unencodable in
      let m2 = or_raise (host.dumps (dict d)) unencodable in
      let (stored, _, h1) = >>=-returns m1 _ s h in
      let (text, _, h2) = >>=-returns m2 _ (m1 s).1 h1 in
      let m3 =
        raise_when (not (stored == text)) (connection_conflict o.from_id o.relation o.to_id) in
      let (_, _, h3) = >>=-returns m3 _ (m2 (m1 s).1).1 h2 in
      (
        ok-injective (ap (λ p. p.0) h3),
        ap (λ (p : Except LedgerError ConnectionRecord × Session). edges p.1) (sym h)
            ∙ (existing_edge-Still host d o).at s,
      )

  chosen-Shows :
      (f r t : String) (d : Fields) (at : Option String) (existing : Option ConnectionRecord)
      (s s' : Session) (c : ConnectionRecord)
      → row_seen host f r t (edges s) ≡ existing
      → maybe
          (assert_edge host f r t d at none)
          (λ o.
            if is_active o then existing_edge host d o else assert_edge host f r t d at (some o.id))
          existing
          s
        ≡ (ok c, s')
      → (connection host s'.ledger f r t ≡ some c) × (is_active c ≡ true)
  chosen-Shows f r t d at none s s' c q h =
      assert_edge-Shows f r t d at none s s' c (row_seen-none host f r t (edges s) q) h
  chosen-Shows f r t d at (some o) s s' c q h = elim (Bool-cases (is_active o)) [
    | inl active ↦
        let (same, still) = existing_edge-returns d o c s s' (rw active at h) in
        (
          connection-row_seen host s'.ledger f r t
              ∙ ap (row_seen host f r t) still
              ∙ q
              ∙ ap some same,
          ap is_active (sym same) ∙ active,
        )
    | inr retracted ↦
        let (row, found, is_row) = row_seen-row host f r t (edges s) o q in
        assert_edge-Shows f r t d at (some o.id) s s' c
          (
            row,
            found,
            ap (λ (x : ConnectionRecord). x.id) (sym is_row) ∙ id-connection_from_row host row,
          )
          (rw retracted at h)
  ]

  -- The edge that `connect` returns is the one that a reader then finds, and it is active: for a new
  -- edge, for one that is there already, and for one that was retracted and is asserted anew.
  pub is_active-connect :
      (f r t : String) (d : Fields) (at : Option String) (s s' : Session) (c : ConnectionRecord)
      → connect host f r t d at s ≡ (ok c, s')
      → (connection host s'.ledger f r t ≡ some c) × (is_active c ≡ true)
  unfolding connect
  is_active-connect f r t d at s s' c h =
      let m1 = or_raise (object host s.ledger f) (unknown_source f) in
      let (from, _, h1) = >>=-returns {A = ObjectRecord} m1 _ s h in
      let m2 = or_raise (object host s.ledger t) (unknown_target t) in
      let (to, _, h2) = >>=-returns {A = ObjectRecord} m2 _ (m1 s).1 h1 in
      let m3 = lift (raise_as vocabulary (validate_connection r from.kind to.kind d)) in
      let (_, _, h3) = >>=-returns m3 _ (m2 (m1 s).1).1 h2 in
      let u = (m3 (m2 (m1 s).1).1).1 in
      chosen-Shows f r t d at (connection host u.ledger f r t) u s' c
        (sym (connection-row_seen host u.ledger f r t)) h3
