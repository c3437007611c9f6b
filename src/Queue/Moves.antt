-- ===== src/Queue/Moves.antt =====
-- ledger/queue.py: the methods that record how a check goes on.
use lean_evolve.Prelude.{
  ℕ, String, Bool, true, false, not, Option, none, some, List, [], ◌∷◌, maybe, ◌==◌, ok,
  if◌then◌else◌,
}
use lean_evolve.Prelude.{raise_as, Except, err}
use lean_evolve.Value.{get}
use lean_evolve.Store.Tables.{Ledger, ObjectRecord, objects, fields_of}
use lean_evolve.Store.Session.{record_event}
use lean_evolve.Artifacts.Entered.{text_of}
use lean_evolve.Derive.{state_of, DerivedState}
use lean_evolve.Queue.Exec.{
  QueueError, derived, not_queued, DurableCheckQueue, Method, give, look, refuse_when, ◌>>=◌, ◌>>◌,
  transact,
}
use lean_evolve.Queue.Jobs.{CheckJob, in_scope, scope, from_record}
use lean_evolve.Queue.Blocks.{
  started, cancelled, timed_out, interrupted, superseded, reconcile_block,
}

abbrev map_ok : {E A B : Type 0} → (A → B) → Except E A → Except E B
map_ok f (ok a) = ok (f a)
map_ok f (err e) = err e

module _ (q : DurableCheckQueue) where
  -- `start`
  unfoldable pub start : String → String → ℕ → Method CheckJob
  unfolding ◌>>=◌
  start job_id worker_id queue_delay = do
    job ← look (from_record q job_id)
    refuse_when (not (job.state == "queued")) (not_queued job_id job.state)
    in_ ← look (λ l. ok (scope q job_id l))
    transact q (in_scope "lean_scratch_gateway" "tool:warm-lean-worker-v1" in_)
        (record_event q.host (started q job_id worker_id queue_delay))
    look (from_record q job_id)

  -- `cancel`
  unfoldable pub cancel : String → String → Method (Unit {0})
  unfolding ◌>>=◌
  cancel job_id reason = do
    look (from_record q job_id)
    in_ ← look (λ l. ok (scope q job_id l))
    transact q (in_scope "ledger_service" "tool:check-queue-v1" in_)
        (record_event q.host (cancelled q job_id reason))
    give tt

  -- `time_out`
  unfoldable pub time_out : String → ℕ → Method (Unit {0})
  unfolding ◌>>=◌
  time_out job_id budget_seconds = do
    look (from_record q job_id)
    in_ ← look (λ l. ok (scope q job_id l))
    transact q (in_scope "lean_scratch_gateway" "tool:warm-lean-worker-v1" in_)
        (record_event q.host (timed_out q job_id budget_seconds))
    give tt

  -- `interrupt`
  unfoldable pub interrupt : String → String → Method (Unit {0})
  unfolding ◌>>=◌
  interrupt job_id detected_by = do
    look (from_record q job_id)
    in_ ← look (λ l. ok (scope q job_id l))
    transact q (in_scope "ledger_service" "tool:check-reconciliation-v1" in_)
        (record_event q.host (interrupted q job_id detected_by))
    give tt

  -- `supersede`
  unfoldable pub supersede : String → String → Method (Unit {0})
  unfolding ◌>>=◌
  supersede job_id newer_job_id = do
    look (from_record q job_id)
    look (from_record q newer_job_id)
    in_ ← look (λ l. ok (scope q job_id l))
    transact q (in_scope "ledger_service" "tool:check-queue-v1" in_)
        (record_event q.host (superseded q job_id newer_job_id))
    give tt

  -- `str(record.properties.get("checkpoint_key"))`
  abbrev key_of : ObjectRecord → String
  key_of o = maybe "None" (text_of q.codec) (get "checkpoint_key" (fields_of o.properties))

  abbrev pub has_key : Option String → ObjectRecord → Bool
  has_key none o = true
  has_key (some key) o = key_of o == key

  abbrev pub is_running : Option String → Bool
  is_running none = false
  is_running (some s) = s == "running"

  -- The two tests of the loop of `reconcile`.
  unfoldable pub running_now : Option String → ObjectRecord → Ledger → Except QueueError Bool
  running_now key o l =
      if has_key key o
      then raise_as derived
          (map_ok (λ (s : DerivedState). is_running s.operational) (state_of q.host l o.id none))
      else ok false

  -- The write of `reconcile` for a check that is running.
  unfoldable pub interrupt_running : String → Method (Unit {0})
  unfolding ◌>>=◌
  interrupt_running job_id = do
    in_ ← look (λ l. ok (scope q job_id l))
    transact q (in_scope "ledger_service" "tool:check-reconciliation-v1" in_)
        (reconcile_block q job_id)
    give tt

  -- The loop of `reconcile` over the check objects, which it has read before.
  unfoldable pub reconcile_all : Option String → List ObjectRecord → Method (List String)
  unfolding ◌>>=◌
  reconcile_all key [] = give []
  reconcile_all key (o ∷ os) = do
    running ← look (running_now key o)
    if running then interrupt_running o.id else give tt
    rest ← reconcile_all key os
    give (if running then o.id ∷ rest else rest)

  -- `reconcile`
  unfoldable pub reconcile : Option String → Method (List String)
  unfolding ◌>>=◌ reconcile_all
  reconcile checkpoint_key = do
    checks ← look (λ l. ok (objects q.host l (some "check")))
    reconcile_all checkpoint_key checks
