-- ===== src/Lib.antt =====
-- A model of the research ledger of LeanEvolve (src/leanevolve/ledger): an append-only, hash-chained
-- history of events, the graph of objects and connections that is kept beside it, the states that are
-- derived from both, the store of artifacts, and the queue of checks that is kept in the ledger; and of
-- the loops of a run that decide what a candidate may contain and which goals it is accepted for.
--
-- The parts, with the file of the repository that each follows:
--   Prelude          shared texts, lists, tests and results (no code of the repository)
--   Value            JSON values, and the functions of `json` and `hashlib` that the ledger calls
--   Vocabulary       src/leanevolve/ledger/vocabulary.py: the tables (Terms, Relations, Actions with a
--                    child for each group of actions) and the functions that check against them
--                    (Validate). Proofs: Authority, Refutation, Levels, Dimensions, Supplied,
--                    Named, Contracts, Accepted
--   Events           src/leanevolve/ledger/events.py: Event, hashed_core, prepare, and the row of an
--                    event. Proofs: Prepared, Chain (Anchor)
--   Store            src/leanevolve/ledger/store.py and the tables of src/leanevolve/ledger/schema.py:
--                    Tables (rows and reads), Exec (a session as a state), Session (record), Objects
--                    (create_object, add_alias), Connections (connect, retract), Artifacts
--                    (register_artifact and the locations), Locations (the reads of locations),
--                    Command, Block (the blocks that write by the methods of their session) and
--                    Transaction (write). Proofs: Append, Growth, History, Methods, Soundness,
--                    Persist (what stays readable: Record, Methods), Repeat, Last (the event that
--                    was written last), Edges (the connections that are left behind: Still, Rows,
--                    Writes, Kept, Reached, and what a reader sees: View, Asserted)
--   Derive           src/leanevolve/ledger/derive.py. Proofs: Truth, Trust, Dimension, Later
--   Integrity        src/leanevolve/ledger/integrity.py: the checks of the history, the objects and
--                    the connections. Proofs: History, Accepts, Reached
--   Artifacts        src/leanevolve/ledger/artifacts.py: Error, Files (ArtifactStore), Entered
--                    (store_and_register, under_replicated, reverify). Proofs: Kept, Settled, Reverified
--   Queue            src/leanevolve/ledger/queue.py: Exec (how a method runs), Jobs (a job as it is
--                    read, pending), Blocks and Submit (submit), Moves (start, cancel, time_out,
--                    interrupt, supersede, reconcile), Results and Complete (complete,
--                    source_bytes), Withdraw and Invalidate (invalidate), Calls (what a client
--                    calls). Proofs: Used, Harmless, Machine, Read, States, Reconciled,
--                    Order, Pending, Submitted
--   Policy           src/leanevolve/policy.py `scrub_comments_and_strings` (Scrub). Proofs: Turns, Masked
--   Schedule         src/leanevolve/workflow/schedule.py: Texts, Parse. Proofs: Bounded
--   Config           src/leanevolve/config.py `_goals`: Names (its patterns), Goals. Proofs: Ladder
--   Kernel           src/leanevolve/kernel.py `run_kernel`, which goals it accepts (Accepts).
--                    Proofs: Audited, Complete
--   Lineage          src/leanevolve/lineage.py `write_lineage`, the path of the frontier (Path).
--                    Proofs: Ends
--   Tests            runs of the model, and each result at a concrete input (Vocabulary, Integrity,
--                    Queue, Artifacts, Reverify, Program, Config, Chain)
--
-- How they interact. A method of `WriteSession` asks the vocabulary, writes an event through `record`
-- (which calls `prepare` and links the event to the one before it), and then changes a table. `write`
-- runs a block of such calls as one transaction: COMMIT if it ends, ROLLBACK if it raises. The
-- functions of derive.py and of integrity.py read the tables and write nothing. A method of the queue
-- reads the ledger, by derive.py too, and then writes in a session of its own, whose block may first put
-- bytes into the store of artifacts: they stay there if the block raises later.
--
-- How the state is modelled. `Ledger` has a list of rows for each table; the events stand newest
-- first, the other tables in the order in which the reads return them. An `Action` takes a session to
-- a result and a session: the session comes back after a raise too, since a block may catch the error
-- and go on. What holds of every block holds of those that `Uses` describes: they read, they call the
-- methods of the session, and they catch errors or not. A `Method` of the queue takes the ledger and the
-- files to a result, the ledger and the files.
-- Python's messages are constructors of VocabularyError, EventError and LedgerError; a TypeError of
-- json.dumps, an sqlite3.IntegrityError and a failed assert are constructors as well. Where a text
-- of the vocabulary is expected, a value of another type is refused as an unknown one (for a list or a
-- dict, Python raises a TypeError there). The loops of the ledger run over lists. Two loops run on
-- fuel: that of the scrub on the length of the source, of which every iteration consumes at least one
-- code point, and that of the lineage on one more than the number of nodes, of which it meets none
-- twice.
--
-- What is taken as an argument: `Host` has `json.dumps` with sorted keys (none where it raises),
-- `json.loads`, and SHA-256. Of SHA-256 nothing is assumed: what would depend on it gives a
-- `Forgery`, a collision or a preimage of the genesis hash. Of `json` two things are assumed where they
-- are used: in Integrity `KeepsFields`, that a dict with texts for keys comes back with the same keys,
-- and the same texts under them; in Events/Chain/Anchor `IsCanonical`, that a canonical text determines
-- plain values, and the keys of a dict with the texts of their values. `value_eq` compares two values
-- as `json` returned them, entry by entry: it tells apart dicts in another order, and 1, 1.0 and True,
-- which `==` of Python does not. The clock gives a text for the id of
-- an event. The store and the queue take `Codec`: SHA-256 of bytes, `str.encode`, and `str`, `int` and
-- `float` of a JSON value. The schedule takes `Unicode`, the classes of code points, and the
-- configuration the class of spaces. What a run of Lean reports for a goal is an argument of the loops
-- of `run_kernel`. Nothing is assumed of these, nor of the clock.
--
-- What is not modelled: the files of the database (schema.py beyond its tables, and the checks of
-- integrity.py that read them or the artifact files), temporary files and failing system calls of the
-- store of artifacts, printing (vocabulary_payload, head_payload, as_dict, describe), calls that
-- interleave between their reading and their write, the rest of policy.py, kernel.py and lineage.py
-- (regular expressions, subprocesses, files), the rest of config.py (paths and files), and the other
-- files of the repository: the worker, the evaluation, the exports, the rest of the workflow and the
-- scripts. Foreign keys are not modelled: every method reads the object that it refers to before it
-- writes.
pub mod Prelude
pub mod Value
pub mod Vocabulary
pub mod Events
pub mod Store
pub mod Artifacts
pub mod Queue
pub mod Policy
pub mod Schedule
pub mod Config
pub mod Kernel
pub mod Lineage
pub mod Derive
pub mod Integrity
pub mod Tests
