-- ===== src/Store/Edges/View.antt =====
-- What a reader of the connections sees after `connect` and `retract` (ledger/store.py).
use lean_evolve.Prelude.{
  nat_eq_refl, String, ◌≡◌, refl, sym, ap, ◌∙◌, inl, inr, Bool, true, false, not, Option, none,
  some, List, [], ◌∷◌, ◌++◌, find, maybe, nat_eq, if◌then◌else◌, Except, ok, err, Bool-cases,
  Option-cases, some_inj, ok-injective, arith,
}
use lean_evolve.Value.{Host}
use lean_evolve.Events.{Draft}
use lean_evolve.Store.Tables.{
  Ledger, ConnectionRow, ConnectionRecord, is_active, is_edge, connection, connection_from_row,
  update,
}
use lean_evolve.Store.Exec.{
  LedgerError, Session, Action, pure, raise, modify, ◌>>=◌, or_raise, continue, no_connection,
}
use lean_evolve.Store.Session.{record_event}
use lean_evolve.Store.Connections.{retract_edge, retract}
use lean_evolve.Store.Edges.Still.{edges, Still-record_event, Still-or_raise}

pub find-append :
    {A : Type 0} (test : A → Bool) (xs : List A) (y : A)
    → find test xs ≡ none
    → test y ≡ true
    → find test (xs ++ y ∷ []) ≡ some y
find-append test [] y h t = rw t refl
find-append test (x ∷ xs) y h t = elim (Bool-cases (test x)) [
  | inl hit ↦ absurd (ground (arith, rw hit at h))
  | inr miss ↦ rw miss (find-append test xs y (rw miss at h) t)
]

-- An update that does not touch what is searched for: the row found is the old one, updated.
pub find-update :
    {A : Type 0} (seek test : A → Bool) (f : A → A)
    → ((x : A) → seek (f x) ≡ seek x)
    → (xs : List A) (x : A) → find seek xs ≡ some x
    → test x ≡ true
    → find seek (update test f xs) ≡ some (f x)
unfolding update
find-update seek test f same [] x h t = absurd (ground arith)
find-update seek test f same (y ∷ ys) x h t = elim (Bool-cases (seek y)) [
  | inl hit ↦
      let q : y ≡ x = some_inj (rw hit at h) in
      rw (ap test q ∙ t, same y, hit) (ap (λ z. some (f z)) q)
  | inr miss ↦
      let rest : find seek ys ≡ some x = rw miss at h in
      elim (Bool-cases (test y)) [
        | inl yes_ ↦ rw (yes_, same y, miss) (find-update seek test f same ys x rest t)
        | inr no_ ↦ rw (no_, miss) (find-update seek test f same ys x rest t)
      ]
]

module _ {A B : Type 0} where
  continue-eq-ok :
      (r : Except LedgerError A) (f : A → Action B) (u : Session) {b : B} {t : Session}
      → continue r f u ≡ (ok b, t)
      → (a : A) × (r ≡ ok a) × (f a u ≡ (ok b, t))
  continue-eq-ok (ok a) f u h = (a, refl, h)
  continue-eq-ok (err e) f u h =
      absurd (ground (arith, ap (λ (p : Except LedgerError B × Session). p.0) h))

  -- A chain of actions that returns is two actions that return.
  pub >>=-returns :
      (m : Action A) (f : A → Action B) (s : Session) {b : B} {t : Session}
      → (m >>= f) s ≡ (ok b, t)
      → (a : A) × ((m s).0 ≡ ok a) × (f a (m s).1 ≡ (ok b, t))
  unfolding ◌>>=◌
  >>=-returns m f s h = continue-eq-ok (m s).0 f (m s).1 h

pub or_raise-returns :
    {A : Type 0} {a : A} (o : Option A) (e : LedgerError) (s t : Session)
    → or_raise o e s ≡ (ok a, t)
    → (o ≡ some a) × (s ≡ t)
unfolding pure raise
or_raise-returns none e s t h =
    absurd (ground (arith, ap (λ (p : Except LedgerError _ × Session). p.0) h))
or_raise-returns (some b) e s t h = (ap some (ok-injective (ap (λ p. p.0) h)), ap (λ p. p.1) h)

module _ (host : Host) where
  abbrev pub row_seen : String → String → String → List ConnectionRow → Option ConnectionRecord
  row_seen f r t cs =
      maybe none (λ (c : ConnectionRow). some (connection_from_row host c))
        (find (is_edge f r t) cs)

  pub connection-row_seen :
      (l : Ledger) (f r t : String) → connection host l f r t ≡ row_seen f r t l.connections
  unfolding connection
  connection-row_seen l f r t = refl

  pub row_seen-row :
      (f r t : String) (cs : List ConnectionRow) (c : ConnectionRecord)
      → row_seen f r t cs ≡ some c
      → (row : ConnectionRow) × (find (is_edge f r t) cs ≡ some row)
        × (connection_from_row host row ≡ c)
  row_seen-row f r t cs c h = elim (Option-cases (find (is_edge f r t) cs)) [
    | inl absent ↦ absurd (ground (arith, rw absent at h))
    | inr (row, seen) ↦ (row, seen, some_inj (rw seen at h))
  ]

  pub row_seen-none :
      (f r t : String) (cs : List ConnectionRow)
      → row_seen f r t cs ≡ none
      → find (is_edge f r t) cs ≡ none
  row_seen-none f r t cs h = elim (Option-cases (find (is_edge f r t) cs)) [
    | inl absent ↦ absent
    | inr (row, seen) ↦ absurd (ground (arith, rw seen at h))
  ]

  pub id-connection_from_row : (row : ConnectionRow) → (connection_from_row host row).id ≡ row.id
  unfolding connection_from_row
  id-connection_from_row row = refl

  -- The state of an edge that a reader finds.
  pub record Shows (f r t : String) (l : Ledger) (active : Bool) : Type 0 where
    pub edge : ConnectionRecord
    pub seen : connection host l f r t ≡ some edge
    pub state : is_active edge ≡ active

  retract_rest :
      (f r t : String) (c : ConnectionRecord) (draft : Draft) (active : Bool) (s s' : Session)
      → is_active c ≡ active
      → row_seen f r t (edges s) ≡ some c
      → (if not active
            then pure tt
            else record_event host draft >>= λ e. modify (retract_edge host c.id e.id))
          s
        ≡ (ok tt, s')
      → Shows f r t s'.ledger false
  unfolding pure modify retract_edge connection_from_row
  retract_rest f r t c draft false s s' q seen h = record {
    edge = c;
    seen =
        connection-row_seen s'.ledger f r t
        ∙ ap (λ (x : Session). row_seen f r t (edges x)) (sym (ap (λ p. p.1) h))
        ∙ seen;
    state = q;
  }
  retract_rest f r t c draft true s s' q seen h =
      let (e, _, h1) = >>=-returns (record_event host draft) _ s h in
      let v = (record_event host draft s).1 in
      let same = (Still-record_event host draft).at s in
      let (row, found, is_row) = row_seen-row f r t (edges s) c seen in
      let set : ConnectionRow → ConnectionRow = λ x. record x { retracted_event_id = some e.id } in
      let test : ConnectionRow → Bool = λ x. nat_eq x.id c.id in
      let named : test row ≡ true =
        ap (λ (x : ConnectionRecord). nat_eq row.id x.id) (sym is_row) ∙ nat_eq_refl row.id in
      record {
        edge = connection_from_row host (set row);
        seen =
            connection-row_seen s'.ledger f r t
            ∙ ap (λ (x : Session). row_seen f r t (edges x)) (sym (ap (λ p. p.1) h1))
            ∙ ap (λ (cs : List ConnectionRow). row_seen f r t (update test set cs)) same
            ∙ rw (find-update (is_edge f r t) test set (λ x. refl) (edges s) row found named) refl;
        state = refl;
      }

  -- After a `retract` that returns, the edge is there and is not active: on the first call as on a
  -- later one.
  pub retract-Shows :
      (f r t reason : String) (s s' : Session)
      → retract host f r t reason s ≡ (ok tt, s')
      → Shows f r t s'.ledger false
  unfolding retract
  retract-Shows f r t reason s s' h =
      let (c, q, h1) =
        >>=-returns (or_raise (connection host s.ledger f r t) (no_connection f r t)) _ s h in
      let read =
        or_raise-returns _ _ s _
          (λ i. (q i, (or_raise (connection host s.ledger f r t) (no_connection f r t) s).1)) in
      retract_rest f r t c _ (is_active c) _ s' refl
        (ap (row_seen f r t)
            ((Still-or_raise (connection host s.ledger f r t) (no_connection f r t)).at s)
          ∙ sym (connection-row_seen s.ledger f r t)
          ∙ read.0)
        h1
