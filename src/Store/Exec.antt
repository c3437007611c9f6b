-- ===== src/Store/Exec.antt =====
-- A write session of ledger/store.py, and code that runs in it: the state comes back after a raise
-- too, because the caller may catch the error inside the `with` block.
use lean_evolve.Prelude.{ℕ, String, Bool, true, false, Option, none, some, List, Except, ok, err}
use lean_evolve.Events.{Envelope, Event, EventError}
use lean_evolve.Vocabulary.Validate.{VocabularyError}
use lean_evolve.Artifacts.Error.{ArtifactError}
use lean_evolve.Store.Tables.{Ledger}

-- `LedgerError` and `ConflictError`, a constructor for each message. The last six are no
-- `LedgerError` in the source: a TypeError of `json.dumps`, an `sqlite3.IntegrityError`, a failed
-- `assert`, an `ArtifactError` of code in the block, a KeyError, and a TypeError
-- of a loop over a value.
pub data LedgerError : Type 0 where
  unknown_evidence : String → LedgerError
  event : EventError → LedgerError
  vocabulary : VocabularyError → LedgerError
  unknown_content_format : String → LedgerError
  refuses_content_format : String → String → LedgerError
  requires_properties : String → List String → LedgerError
  object_conflict : String → LedgerError
  unknown_object : String → LedgerError
  alias_conflict : String → String → LedgerError
  unknown_source : String → LedgerError
  unknown_target : String → LedgerError
  connection_conflict : String → String → String → LedgerError
  no_connection : String → String → String → LedgerError
  not_a_sha256 : String → LedgerError
  negative_byte_size : LedgerError
  unknown_retention : String → LedgerError
  not_an_artifact : String → String → LedgerError
  unencodable : LedgerError
  integrity : String → LedgerError
  assertion : LedgerError
  artifact : ArtifactError → LedgerError
  missing_key : String → LedgerError
  not_iterable : LedgerError

-- `WriteSession`; `clock` gives the reading of `utc_now` when the event with a given id is prepared.
pub record Session : Type 0 where
  pub ledger : Ledger
  pub envelope : Envelope
  pub clock : ℕ → String
  pub next_id : ℕ
  pub previous_hash : String
  pub written : List Event

abbrev pub Action : Type 0 → Type 0
Action A = Session → Except LedgerError A × Session

module _ {A : Type 0} where
  unfoldable pub pure : A → Action A
  pure a s = (ok a, s)

  unfoldable pub raise : LedgerError → Action A
  raise e s = (err e, s)

  unfoldable pub lift : Except LedgerError A → Action A
  lift r s = (r, s)

  unfoldable pub gets : (Ledger → A) → Action A
  gets f s = (ok (f s.ledger), s)

unfoldable pub modify : (Ledger → Ledger) → Action (Unit {0})
modify f s = (ok tt, record s { ledger = f s.ledger })

module _ {A B : Type 0} where
  abbrev pub continue : Except LedgerError A → (A → Action B) → Action B
  continue (ok a) f s = f a s
  continue (err e) f s = (err e, s)

  infixl 5 ◌>>=◌ ◌>>◌
  unfoldable pub ◌>>=◌ : Action A → (A → Action B) → Action B
  unfolding pure raise lift gets modify
  ◌>>=◌ m f s = continue (m s).0 f (m s).1

  abbrev pub ◌>>◌ : Action A → Action B → Action B
  m >> k = m >>= λ _. k

-- `if test: raise e`
abbrev pub raise_when : Bool → LedgerError → Action (Unit {0})
raise_when true e = raise e
raise_when false e = pure tt

abbrev pub or_raise : {A : Type 0} → Option A → LedgerError → Action A
or_raise none e = raise e
or_raise (some a) e = pure a
