-- ===== src/Queue/Exec.antt =====
-- How the methods of the queue run (ledger/queue.py `DurableCheckQueue`): they read the ledger, and
-- each write is a session of its own. The state comes back after an error too.
use lean_evolve.Prelude.{ℕ, String, Bool, true, false, Except, ok, err, raise_as}
use lean_evolve.Value.{Host}
use lean_evolve.Vocabulary.Validate.{VocabularyError}
use lean_evolve.Events.{Envelope}
use lean_evolve.Store.Tables.{Ledger}
use lean_evolve.Store.Exec.{LedgerError, Action, artifact}
use lean_evolve.Store.Transaction.{write}
use lean_evolve.Artifacts.Error.{ArtifactError}
use lean_evolve.Artifacts.Files.{Bytes, Codec, Files, StoredArtifact, put_bytes}

-- What the methods raise: the four messages of their own, an error of a write session, of derived
-- state or of the store of bytes, a KeyError, and what `int` or `float` raises.
pub data QueueError : Type 0 where
  unknown_check : String → QueueError
  queue_full : ℕ → QueueError
  not_queued : String → String → QueueError
  not_running : String → String → QueueError
  session : LedgerError → QueueError
  derived : VocabularyError → QueueError
  stored : ArtifactError → QueueError
  no_property : String → QueueError
  no_number : String → QueueError

-- The queue with what it calls: the libraries, the root of the store of bytes, the limit, and the
-- reading of the clock when the event with a given id is prepared.
pub record DurableCheckQueue : Type 0 where
  pub host : Host
  pub codec : Codec
  pub root : String
  pub max_pending : ℕ
  pub clock : ℕ → String

pub record State : Type 0 where
  pub ledger : Ledger
  pub files : Files

abbrev pub Method : Type 0 → Type 0
Method A = State → Except QueueError A × State

module _ {A : Type 0} where
  unfoldable pub give : A → Method A
  give a s = (ok a, s)

  -- A read of the ledger, which may raise.
  unfoldable pub look : (Ledger → Except QueueError A) → Method A
  look f s = (f s.ledger, s)

-- `if test: raise e`
unfoldable pub refuse_when : Bool → QueueError → Method (Unit {0})
refuse_when true e s = (err e, s)
refuse_when false e s = (ok tt, s)

module _ {A B : Type 0} where
  abbrev pub resume : Except QueueError A → (A → Method B) → Method B
  resume (ok a) f s = f a s
  resume (err e) f s = (err e, s)

  infixl 5 ◌>>=◌ ◌>>◌
  unfoldable pub ◌>>=◌ : Method A → (A → Method B) → Method B
  unfolding give look refuse_when
  ◌>>=◌ m f s = resume (m s).0 f (m s).1

  abbrev pub ◌>>◌ : Method A → Method B → Method B
  m >> k = m >>= λ _. k

-- The files after `put_bytes`, which a block that raises later does not undo.
abbrev pub files_after : Except ArtifactError (StoredArtifact × Files) → Files → Files
files_after (ok (a, files)) old = files
files_after (err e) old = old

abbrev pub put_result :
    Except ArtifactError (StoredArtifact × Files) → Except LedgerError StoredArtifact
put_result (ok (a, files)) = ok a
put_result (err e) = err (artifact e)

module _ (q : DurableCheckQueue) {A : Type 0} where
  abbrev pub written : Files → Except LedgerError A × Ledger → Except QueueError A × State
  written files (r, l) = (raise_as session r, record { ledger = l; files = files })

  -- `with self.ledger.write(…) as session` around a block
  unfoldable pub transact : Envelope → Action A → Method A
  transact envelope block s = written s.files (write q.host envelope q.clock block s.ledger)

  -- A block that begins with `put_bytes`, whose result it gets.
  unfoldable pub transact_storing :
      Envelope → Bytes → (Except LedgerError StoredArtifact → Action A) → Method A
  transact_storing envelope bytes block s =
      let put = put_bytes q.codec q.root bytes s.files in
      written (files_after put s.files)
        (write q.host envelope q.clock (block (put_result put)) s.ledger)
