-- ===== src/Store/Transaction.antt =====
-- ledger/store.py `Ledger.write`: a session is one transaction.
use lean_evolve.Prelude.{ℕ, suc, String, Bool, true, false, List, [], ◌∷◌, maybe, Except, ok, err}
use lean_evolve.Value.{Host}
use lean_evolve.Events.{Envelope, genesis_hash}
use lean_evolve.Store.Tables.{Ledger, head}
use lean_evolve.Store.Exec.{LedgerError, Session, Action, pure, raise, ◌>>=◌, ◌>>◌}
use lean_evolve.Store.Command.{Command}
use lean_evolve.Store.Session.{record_event}
use lean_evolve.Store.Objects.{create_object, add_alias}
use lean_evolve.Store.Connections.{connect, retract}
use lean_evolve.Store.Artifacts.{
  register_artifact, add_location, verify_location, lose_location, archive_artifact,
}

-- A call in the `with` block, and whether the block catches what it raises.
abbrev pub Step : Type 0
Step = Bool × Command

abbrev outcome : {A : Type 0} → Bool → Except LedgerError A → Action (Unit {0})
outcome caught (ok a) = pure tt
outcome true (err e) = pure tt
outcome false (err e) = raise e

-- `pass` after the call, or after the `except` clause that catches it.
unfoldable pub attempt : {A : Type 0} → Bool → Action A → Action (Unit {0})
unfolding pure raise
attempt caught m s = outcome caught (m s).0 (m s).1

module _ (host : Host) where
  unfoldable pub perform : Bool → Command → Action (Unit {0})
  unfolding attempt
  perform caught (Command.record_event draft) = attempt caught (record_event host draft)
  perform caught (Command.create_object n) = attempt caught (create_object host n)
  perform caught (Command.add_alias alias id) = attempt caught (add_alias host alias id)
  perform caught (Command.connect f r t d at) = attempt caught (connect host f r t d at)
  perform caught (Command.retract f r t reason) = attempt caught (retract host f r t reason)
  perform caught (Command.register_artifact a) = attempt caught (register_artifact host a)
  perform caught (Command.add_location id place) = attempt caught (add_location host id place)
  perform caught (Command.verify_location id place v) =
      attempt caught (verify_location host id place v)
  perform caught (Command.lose_location id place reason) =
      attempt caught (lose_location host id place reason)
  perform caught (Command.archive_artifact id state) =
      attempt caught (archive_artifact host id state)

  -- The body of a `with` block, as the calls that it makes.
  unfoldable pub run_steps : List Step → Action (Unit {0})
  unfolding ◌>>=◌
  run_steps [] = pure tt
  run_steps ((caught, command) ∷ steps) = perform caught command >> run_steps steps

  -- The session that `write` yields: it goes on from the head of the chain.
  unfoldable pub begin : Ledger → Envelope → (ℕ → String) → Session
  begin l envelope clock = record {
    ledger = l;
    envelope = envelope;
    clock = clock;
    next_id = maybe 1 (λ h. suc h.id) (head host l);
    previous_hash = maybe genesis_hash (λ h. h.event_hash) (head host l);
    written = [];
  }

-- COMMIT, or ROLLBACK to the ledger at BEGIN if the block raised.
unfoldable pub finish :
    {A : Type 0} → Ledger → Except LedgerError A × Session → Except LedgerError A × Ledger
finish l (ok a, s) = (ok a, s.ledger)
finish l (err e, s) = (err e, l)

module _ (host : Host) where
  -- `Ledger.write` around a block.
  unfoldable pub write :
      {A : Type 0} → Envelope → (ℕ → String) → Action A → Ledger → Except LedgerError A × Ledger
  unfolding begin finish
  write envelope clock block l = finish l (block (begin host l envelope clock))
