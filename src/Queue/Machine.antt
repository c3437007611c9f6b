-- ===== src/Queue/Machine.antt =====
-- The states of a check (ledger/queue.py, ledger/derive.py `_operational`).
use lean_evolve.Prelude.{
  String, ◌≡◌, refl, sym, ap, ◌∙◌, Bool, true, false, Option, none, some, is_some, [], ◌∷◌, Except,
  ok, err, arith, ok-injective,
}
use lean_evolve.Events.{Envelope, Event}
use lean_evolve.Store.Tables.{Ledger, events_of}
use lean_evolve.Store.Exec.{LedgerError, Session, Action}
use lean_evolve.Store.Transaction.{write, begin, finish}
use lean_evolve.Store.Soundness.{Reachable, Reachable-IsSound, begin-IsAtHead}
use lean_evolve.Store.Last.{IsLast, Ends}
use lean_evolve.Derive.{operational, operational_events, table_get}
use lean_evolve.Derive.Dimension.{operational_from-append, reported}
use lean_evolve.Artifacts.Files.{Bytes, Files, StoredArtifact, put_bytes}
use lean_evolve.Derive.Later.{events_of-IsLast}
use lean_evolve.Queue.Exec.{
  QueueError, DurableCheckQueue, State, Method, give, look, refuse_when, ◌>>=◌, resume, written,
  put_result, transact, transact_storing,
}

module _ {A B : Type 0} where
  resume-eq-ok :
      (r : Except QueueError A) (f : A → Method B) (u : State) {b : B} {t : State}
      → resume r f u ≡ (ok b, t)
      → (a : A) × (r ≡ ok a) × (f a u ≡ (ok b, t))
  resume-eq-ok (ok a) f u h = (a, refl, h)
  resume-eq-ok (err e) f u h =
      absurd (ground (arith, ap (λ (p : Except QueueError B × State). p.0) h))

  -- A chain of methods that returns is two methods that return.
  pub >>=-returns :
      (m : Method A) (f : A → Method B) (s : State) {b : B} {t : State}
      → (m >>= f) s ≡ (ok b, t)
      → (a : A) × ((m s).0 ≡ ok a) × (f a (m s).1 ≡ (ok b, t))
  unfolding ◌>>=◌
  >>=-returns m f s h = resume-eq-ok (m s).0 f (m s).1 h

module _ (q : DurableCheckQueue) where
  -- The operational state of an object.
  abbrev pub progress : String → Ledger → Option String
  progress id l = operational (events_of q.host l (some id) none)

  finish-returns :
      {A : Type 0} (l : Ledger) (r : Except LedgerError A) (u : Session) (files : Files) (a : A)
      (t : State)
      → written q files (finish l (r, u)) ≡ (ok a, t)
      → (r ≡ ok a) × (t.ledger ≡ u.ledger) × (t.files ≡ files)
  unfolding finish
  finish-returns l (ok b) u files a t h =
      let end = ap (λ (p : Except QueueError _ × State). p.1) h in
      (
        ap ok (ok-injective (ap (λ p. p.0) h)),
        ap (λ (x : State). x.ledger) (sym end),
        ap (λ (x : State). x.files) (sym end),
      )
  finish-returns l (err e) u files a t h =
      absurd (ground (arith, ap (λ (p : Except QueueError _ × State). p.0) h))

  -- A write session that returns has committed what its block left.
  pub transact-returns :
      {A : Type 0} (envelope : Envelope) (block : Action A) (s t : State) (a : A)
      → transact q envelope block s ≡ (ok a, t)
      → (u : Session) × (block (begin q.host s.ledger envelope q.clock) ≡ (ok a, u))
        × (t.ledger ≡ u.ledger)
  unfolding transact write
  transact-returns envelope block s t a h =
      let opened = begin q.host s.ledger envelope q.clock in
      let (r, same, _) = finish-returns s.ledger (block opened).0 (block opened).1 s.files a t h in
      ((block opened).1, λ i. (r i, (block opened).1), same)

  transact_storing-returns :
      {A : Type 0} (envelope : Envelope) (bytes : Bytes)
      (block : Except LedgerError StoredArtifact → Action A) (s t : State) (a : A)
      → transact_storing q envelope bytes block s ≡ (ok a, t)
      → (put : Except LedgerError StoredArtifact) × (u : Session) × (block put
            (begin q.host s.ledger envelope q.clock)
          ≡ (ok a, u))
        × (t.ledger ≡ u.ledger)
  unfolding transact_storing write
  transact_storing-returns envelope bytes block s t a h =
      let opened = begin q.host s.ledger envelope q.clock in
      let put = put_result (put_bytes q.codec q.root bytes s.files) in
      let (r, same, _) =
        finish-returns s.ledger (block put opened).0 (block put opened).1 _ a t h in
      (put, (block put opened).1, λ i. (r i, (block put opened).1), same)

  -- An event of an operational action is the state of its subject, when it is the last.
  pub progress-IsLast :
      {action subject : String} {e : Event} {u t : Session}
      → IsLast q.host action subject e u t
      → is_some (table_get action operational_events) ≡ true
      → progress subject t.ledger ≡ table_get action operational_events
  unfolding operational
  progress-IsLast {action} {subject} {e} {u} {t} last h =
      let said = ap (λ a. table_get a operational_events) last.action in
      ap operational (events_of-IsLast q.host last)
      ∙ operational_from-append none (events_of q.host u.ledger (some subject) none) (e ∷ [])
      ∙ reported _ e (ap is_some said ∙ h)
      ∙ said

  -- A method that does not write.
  pub record Unmoved {A : Type 0} (m : Method A) : Type 0 where
    pub at : (s : State) → (m s).1 ≡ s

  -- When the method returns, the check is in the state.
  pub record Turns (job_id state : String) {A : Type 0} (m : Method A) : Type 1 where
    pub at :
        (s t : State) (a : A)
        → Reachable q.host s.ledger
        → m s ≡ (ok a, t)
        → progress job_id t.ledger ≡ some state

  module _ {A : Type 0} where
    pub Unmoved-look : (f : Ledger → Except QueueError A) → Unmoved (look f)
    unfolding look
    Unmoved-look f = record { at = λ s. refl }

    pub Unmoved-give : (a : A) → Unmoved (give a)
    unfolding give
    Unmoved-give a = record { at = λ s. refl }

    pub Turns-transact :
        {action job_id state : String} (envelope : Envelope) (block : Action A)
        → table_get action operational_events ≡ some state
        → Ends q.host action job_id block
        → Turns job_id state (transact q envelope block)
    Turns-transact {job_id = job_id} envelope block known k = record {
      at = λ s t a r w.
          let (u, ran, same) = transact-returns envelope block s t a w in
          let at_head =
            begin-IsAtHead q.host s.ledger envelope q.clock (Reachable-IsSound q.host r) in
          let (_, e, _, last) = k.at (begin q.host s.ledger envelope q.clock) u a at_head ran in
          ap (progress job_id) same ∙ progress-IsLast last (ap is_some known) ∙ known;
    }

    pub Turns-storing :
        {action job_id state : String} (envelope : Envelope) (bytes : Bytes)
        (block : Except LedgerError StoredArtifact → Action A)
        → table_get action operational_events ≡ some state
        → ((put : Except LedgerError StoredArtifact) → Ends q.host action job_id (block put))
        → Turns job_id state (transact_storing q envelope bytes block)
    Turns-storing {job_id = job_id} envelope bytes block known k = record {
      at = λ s t a r w.
          let (put, u, ran, same) = transact_storing-returns envelope bytes block s t a w in
          let at_head =
            begin-IsAtHead q.host s.ledger envelope q.clock (Reachable-IsSound q.host r) in
          let (_, e, _, last) =
            (k put).at (begin q.host s.ledger envelope q.clock) u a at_head ran in
          ap (progress job_id) same ∙ progress-IsLast last (ap is_some known) ∙ known;
    }

  pub Unmoved-refuse_when : (b : Bool) (e : QueueError) → Unmoved (refuse_when b e)
  unfolding refuse_when
  Unmoved-refuse_when true e = record { at = λ s. refl }
  Unmoved-refuse_when false e = record { at = λ s. refl }

  module _ {A B : Type 0} where
    pub Turns-after :
        {job_id state : String} (m : Method A) (f : A → Method B)
        → Unmoved m
        → ((a : A) → Turns job_id state (f a))
        → Turns job_id state (m >>= f)
    Turns-after m f u k = record {
      at = λ s t b r w.
          let (a, _, rest) = >>=-returns m f s w in
          (k a).at s t b r (ap (f a) (sym (u.at s)) ∙ rest);
    }

    pub Turns-before :
        {job_id state : String} (m : Method A) (f : A → Method B)
        → Turns job_id state m
        → ((a : A) → Unmoved (f a))
        → Turns job_id state (m >>= f)
    Turns-before {job_id} m f k u = record {
      at = λ s t b r w.
          let (a, ran, rest) = >>=-returns m f s w in
          let end = sym (ap (λ (p : Except QueueError B × State). p.1) rest) ∙ (u a).at (m s).1 in
          ap (λ (x : State). progress job_id x.ledger) end
          ∙ k.at s (m s).1 a r (λ i. (ran i, (m s).1));
    }
