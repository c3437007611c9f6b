-- ===== src/Store/Edges/Reached.antt =====
-- The connections of the ledgers that write sessions reach (ledger/store.py `Ledger.write`).
use lean_evolve.Prelude.{sym, subst, Bool, true, false, ◌≡◌, Except, ok, err}
use lean_evolve.Value.{Host}
use lean_evolve.Store.Tables.{Ledger}
use lean_evolve.Store.Exec.{LedgerError, Session, Action, ◌>>=◌, lift}
use lean_evolve.Store.Transaction.{attempt, begin, finish, write}
use lean_evolve.Store.Block.{
  Uses, returns, reads, binds, attempts, records, creates, aliases, connects, retracts, registers,
  locates, verifies, loses, archives,
}
use lean_evolve.Store.Soundness.{Reachable, start, next}
use lean_evolve.Store.Edges.Still.{
  edges, Still, Still-lift, Still-gets, Still-record_event, create_object-Still, add_alias-Still,
  register_artifact-Still, add_location-Still, verify_location-Still, lose_location-Still,
  archive_artifact-Still,
}
use lean_evolve.Store.Persist.{Persists, Persists-refl, Persists-trans, Stays}
use lean_evolve.Store.Persist.Methods.{Uses-Stays}
use lean_evolve.Store.Edges.Rows.{AreEdges, AreEdges-mono}
use lean_evolve.Store.Edges.Kept.{Guards, Guards-Still, connect-Guards, retract-Guards}

module _ (host : Host) (last : Ledger) where
  attempt-edges :
      {A : Type 0} (caught : Bool) (r : Except LedgerError A) (s t : Session)
      → (Persists host t.ledger last → AreEdges host last (edges t))
      → Persists host (attempt caught (λ _. (r, t)) s).1.ledger last
      → AreEdges host last (edges (attempt caught (λ _. (r, t)) s).1)
  unfolding attempt
  attempt-edges caught (ok a) s t h p = h p
  attempt-edges true (err e) s t h p = h p
  attempt-edges false (err e) s t h p = h p

  attempt-Guards :
      {A : Type 0} (caught : Bool) (m : Action A)
      → Guards host last m
      → Guards host last (attempt caught m)
  unfolding attempt
  attempt-Guards caught m g = record {
    at = λ s p h. attempt-edges caught (m s).0 s (m s).1 (λ q. g.at s q h) p;
  }

  then_edges :
      {A B : Type 0} (r : Except LedgerError A) (f : A → Action B) (t : Session)
      → (Persists host t.ledger last → AreEdges host last (edges t))
      → ((a : A) → Guards host last (f a))
      → ((a : A) → Stays host (f a))
      → Persists host ((lift r >>= f) t).1.ledger last
      → AreEdges host last (edges ((lift r >>= f) t).1)
  unfolding ◌>>=◌
  then_edges (ok a) f t h g k p = (g a).at t p (h (Persists-trans host ((k a).at t) p))
  then_edges (err e) f t h g k p = h p

  bind-Guards :
      {A B : Type 0} (m : Action A) (f : A → Action B)
      → Guards host last m
      → ((a : A) → Guards host last (f a))
      → ((a : A) → Stays host (f a))
      → Guards host last (m >>= f)
  unfolding ◌>>=◌
  bind-Guards m f g k l = record {
    at = λ s p h. then_edges (m s).0 f (m s).1 (λ q. g.at s q h) k l p;
  }

  still : {A : Type 0} {m n : Action A} → m ≡ n → Still n → Guards host last m
  still {m = m} {n = n} e k = subst (Guards host last) (sym e) (Guards-Still host last n k)

  pub Uses-Guards : {A : Type 0} (m : Action A) → Uses host A m → Guards host last m
  Uses-Guards m (returns r e) = still e (Still-lift r)
  Uses-Guards m (reads f e) = still e (Still-gets f)
  Uses-Guards m (binds n f e u v) = subst (Guards host last) (sym e) (
      bind-Guards n f (Uses-Guards n u) (λ a. Uses-Guards (f a) (v a))
        (λ a. Uses-Stays host (f a) (v a)))
  Uses-Guards m (attempts caught n e u) =
      subst (Guards host last) (sym e) (attempt-Guards caught n (Uses-Guards n u))
  Uses-Guards m (records draft e) = still e (Still-record_event host draft)
  Uses-Guards m (creates n e) = still e (create_object-Still host n)
  Uses-Guards m (aliases a i e) = still e (add_alias-Still host a i)
  Uses-Guards m (connects f r t d at e) =
      subst (Guards host last) (sym e) (connect-Guards host last f r t d at)
  Uses-Guards m (retracts f r t reason e) =
      subst (Guards host last) (sym e) (retract-Guards host last f r t reason)
  Uses-Guards m (registers a e) = still e (register_artifact-Still host a)
  Uses-Guards m (locates i p e) = still e (add_location-Still host i p)
  Uses-Guards m (verifies i p v e) = still e (verify_location-Still host i p v)
  Uses-Guards m (loses i p r e) = still e (lose_location-Still host i p r)
  Uses-Guards m (archives i t e) = still e (archive_artifact-Still host i t)

module _ (host : Host) where
  finish-AreEdges :
      {A : Type 0} (l : Ledger) (r : Except LedgerError A) (s : Session)
      → AreEdges host l l.connections
      → AreEdges host s.ledger (edges s)
      → AreEdges host (finish l (r, s)).1 (finish l (r, s)).1.connections
  unfolding finish
  finish-AreEdges l (ok u) s h k = k
  finish-AreEdges l (err e) s h k = h

  -- In a ledger that write sessions have reached, the ids of the connections ascend, and every
  -- connection, a retracted one too, names two objects of the ledger. Its relation accepts their kinds
  -- and the properties that it stores, by all the conditions of `validate_connection`.
  pub Reachable-AreEdges : {l : Ledger} → Reachable host l → AreEdges host l l.connections
  unfolding write begin
  Reachable-AreEdges (start e) =
      subst (λ (x : Ledger). AreEdges host x x.connections) (sym e)
        (record { ascend = tt; all = tt })
  Reachable-AreEdges (next {l = l} envelope clock block r u e) =
      let s = begin host l envelope clock in
      let last = (block s).1.ledger in
      let h = Reachable-AreEdges r in
      let there = AreEdges-mono host l last l.connections ((Uses-Stays host block u).at s) h in
      subst (λ (x : Ledger). AreEdges host x x.connections) (sym e)
        (finish-AreEdges l (block s).0 (block s).1 h
          ((Uses-Guards host last block u).at s (Persists-refl host last) there))
