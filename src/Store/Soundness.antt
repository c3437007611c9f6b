-- ===== src/Store/Soundness.antt =====
-- The ledgers that are reached by write sessions, and what one session adds to a ledger
-- (ledger/store.py `Ledger.write`).
use lean_evolve.Prelude.{
  ℕ, suc, String, ◌≡◌, refl, sym, subst, Bool, true, false, List, [], ◌∷◌, ◌++◌, Except, ok, err,
  maybe, map, All,
}
use lean_evolve.Value.{Host}
use lean_evolve.Events.Chain.{head_id, head_hash}
use lean_evolve.Events.{genesis_hash, Envelope, EventRow, event_from_row}
use lean_evolve.Store.Tables.{Ledger, empty_ledger, head, object_exists}
use lean_evolve.Store.Exec.{LedgerError, Session, Action}
use lean_evolve.Store.Transaction.{attempt, begin, finish, write}
use lean_evolve.Store.Block.{
  Uses, returns, reads, binds, attempts, records, creates, aliases, connects, retracts, registers,
  locates, verifies, loses, archives,
}
use lean_evolve.Store.Growth.{
  IsBy, IsSound, IsAtHead, Grows, Keeps, Keeps-lift, Keeps-gets, Keeps-bind,
}
use lean_evolve.Store.History.{Keeps-record_event}
use lean_evolve.Store.Methods.{
  create_object-Keeps, add_alias-Keeps, connect-Keeps, retract-Keeps, register_artifact-Keeps,
  add_location-Keeps, verify_location-Keeps, lose_location-Keeps, archive_artifact-Keeps,
}

module _ (host : Host) where
  Keeps-outcome :
      {A : Type 0} (caught : Bool) (r : Except LedgerError A) (s t : Session)
      → Grows host s t
      → Grows host s (attempt caught (λ _. (r, t)) s).1
  unfolding attempt
  Keeps-outcome caught (ok a) s t g = g
  Keeps-outcome true (err e) s t g = g
  Keeps-outcome false (err e) s t g = g

  Keeps-attempt :
      {A : Type 0} (caught : Bool) (m : Action A) → Keeps host m → Keeps host (attempt caught m)
  unfolding attempt
  Keeps-attempt caught m k = record { at = λ s. Keeps-outcome caught (m s).0 s (m s).1 (k.at s) }

  -- A block keeps what its reads, its branches and the methods that it calls keep.
  pub Uses-Keeps : {A : Type 0} (m : Action A) → Uses host A m → Keeps host m
  Uses-Keeps m (returns r e) = subst (Keeps host) (sym e) (Keeps-lift host r)
  Uses-Keeps m (reads f e) = subst (Keeps host) (sym e) (Keeps-gets host f)
  Uses-Keeps m (binds n f e u v) =
      subst (Keeps host) (sym e)
        (Keeps-bind host n f (Uses-Keeps n u) (λ a. Uses-Keeps (f a) (v a)))
  Uses-Keeps m (attempts caught n e u) =
      subst (Keeps host) (sym e) (Keeps-attempt caught n (Uses-Keeps n u))
  Uses-Keeps m (records draft e) = subst (Keeps host) (sym e) (Keeps-record_event host draft)
  Uses-Keeps m (creates n e) = subst (Keeps host) (sym e) (create_object-Keeps host n)
  Uses-Keeps m (aliases a i e) = subst (Keeps host) (sym e) (add_alias-Keeps host a i)
  Uses-Keeps m (connects f r t d at e) = subst (Keeps host) (sym e) (connect-Keeps host f r t d at)
  Uses-Keeps m (retracts f r t reason e) =
      subst (Keeps host) (sym e) (retract-Keeps host f r t reason)
  Uses-Keeps m (registers a e) = subst (Keeps host) (sym e) (register_artifact-Keeps host a)
  Uses-Keeps m (locates i p e) = subst (Keeps host) (sym e) (add_location-Keeps host i p)
  Uses-Keeps m (verifies i p v e) = subst (Keeps host) (sym e) (verify_location-Keeps host i p v)
  Uses-Keeps m (loses i p r e) = subst (Keeps host) (sym e) (lose_location-Keeps host i p r)
  Uses-Keeps m (archives i t e) = subst (Keeps host) (sym e) (archive_artifact-Keeps host i t)

  next_id_at :
      (rows : List EventRow)
      → maybe 1 (λ h. suc h.id) (head host (record empty_ledger { events = rows }))
        ≡ suc (head_id (map (event_from_row host) rows))
  unfolding head
  next_id_at [] = refl
  next_id_at (row ∷ rows) = refl

  previous_hash_at :
      (rows : List EventRow)
      → maybe genesis_hash (λ h. h.event_hash) (head host (record empty_ledger { events = rows }))
        ≡ head_hash (map (event_from_row host) rows)
  unfolding head
  previous_hash_at [] = refl
  previous_hash_at (row ∷ rows) = refl

  pub begin-IsAtHead :
      (l : Ledger) (envelope : Envelope) (clock : ℕ → String)
      → IsSound host l
      → IsAtHead host (begin host l envelope clock)
  unfolding begin head
  begin-IsAtHead l envelope clock h = record {
    sound = h;
    numbered = next_id_at l.events;
    linked = previous_hash_at l.events;
  }

  -- The ledger after a transaction: the events that it adds stand before the old ones and have the
  -- actor of its envelope, every object is still there, and the ledger is sound.
  pub record Continues (envelope : Envelope) (l m : Ledger) : Type 0 where
    pub added : List EventRow
    pub extended : m.events ≡ added ++ l.events
    pub authored : All (IsBy host envelope) added
    pub objects_stay : (id : String) → object_exists l id ≡ true → object_exists m id ≡ true
    pub sound : IsSound host m

  finish-Continues :
      {A : Type 0} (envelope : Envelope) (l : Ledger) (r : Except LedgerError A) (s : Session)
      → IsSound host l
      → Continues envelope l s.ledger
      → Continues envelope l (finish l (r, s)).1
  unfolding finish
  finish-Continues envelope l (ok u) s h c = c
  finish-Continues envelope l (err x) s h c = record {
    added = [];
    extended = refl;
    authored = tt;
    objects_stay = λ id k. k;
    sound = h;
  }

  -- A transaction on a sound ledger, with any envelope and any block that writes by the methods of
  -- its session, whose errors the block may catch or not: no event is changed, moved or dropped, the
  -- new events stand behind the old ones and carry the actor of the envelope, no object is removed,
  -- the hash chain verifies, and every event is lawful.
  pub write-Continues :
      {A : Type 0} (envelope : Envelope) (clock : ℕ → String) (block : Action A) (l : Ledger)
      → Uses host A block
      → IsSound host l
      → Continues envelope l (write host envelope clock block l).1
  unfolding write begin
  write-Continues envelope clock block l u h =
      let s = begin host l envelope clock in
      let g = (Uses-Keeps block u).at s in
      let x = g.from_head (begin-IsAtHead l envelope clock h) in
      finish-Continues envelope l (block s).0 (block s).1 h (record {
        added = x.added;
        extended = x.extended;
        authored = x.authored;
        objects_stay = g.objects_stay;
        sound = x.at_head.sound;
      })

  -- The ledgers that transactions reach from the empty one.
  pub data Reachable : Ledger → Type 1 where
    start : {l : Ledger} → l ≡ empty_ledger → Reachable l
    next :
        {A : Type 0} {l m : Ledger} (envelope : Envelope) (clock : ℕ → String) (block : Action A)
        → Reachable l
        → Uses host A block
        → m ≡ (write host envelope clock block l).1
        → Reachable m

  empty_ledger-IsSound : IsSound host empty_ledger
  empty_ledger-IsSound = record { chain = tt; lawful = tt }

  pub Reachable-IsSound : {l : Ledger} → Reachable l → IsSound host l
  Reachable-IsSound (start e) = subst (IsSound host) (sym e) empty_ledger-IsSound
  Reachable-IsSound (next {l = l} envelope clock block r u e) =
      subst (IsSound host) (sym e)
        (write-Continues envelope clock block l u (Reachable-IsSound r)).sound
