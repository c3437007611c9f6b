-- ===== src/Queue/Harmless.antt =====
-- The calls of ledger/queue.py, one after the other, and the ledger before and after them.
use lean_evolve.Prelude.{
  ℕ, String, ◌≡◌, ◌≢◌, refl, Bool, true, false, List, [], ◌∷◌, Option, none, Except, ok, err,
  if◌then◌else◌,
}
use lean_evolve.Events.{Envelope}
use lean_evolve.Store.Tables.{Ledger, ObjectRecord}
use lean_evolve.Store.Exec.{LedgerError, Action}
use lean_evolve.Store.Block.{Uses, Uses-record_event}
use lean_evolve.Store.Transaction.{write}
use lean_evolve.Derive.Trust.{texts_differ}
use lean_evolve.Store.Soundness.{Reachable, next}
use lean_evolve.Derive.{truth_of}
use lean_evolve.Derive.Later.{truth_of-write}
use lean_evolve.Artifacts.Files.{Bytes, StoredArtifact}
use lean_evolve.Queue.Exec.{
  QueueError, DurableCheckQueue, State, Method, give, look, refuse_when, ◌>>=◌, resume, transact,
  transact_storing,
}
use lean_evolve.Queue.Jobs.{Scope, in_scope}
use lean_evolve.Queue.Blocks.{Submission}
use lean_evolve.Queue.Submit.{reuse, enqueue, submit}
use lean_evolve.Queue.Moves.{
  start, cancel, time_out, interrupt, supersede, interrupt_running, reconcile_all, reconcile,
}
use lean_evolve.Queue.Results.{Outcome}
use lean_evolve.Queue.Complete.{complete}
use lean_evolve.Queue.Invalidate.{invalidate}
use lean_evolve.Queue.Calls.{Call, call}
use lean_evolve.Queue.Used.{
  reuse_block-Uses, submit_block-Uses, reconcile_block-Uses, complete_block-Uses,
  invalidate_block-Uses,
}

module _ (q : DurableCheckQueue) where
  -- The ledger `m` comes from write sessions if `l` does, and nothing counts as proved in `m` that did
  -- not in `l`.
  pub record Follows (l m : Ledger) : Type 1 where
    pub reachable : Reachable q.host m
    pub proved_before :
        (id : String) → truth_of q.host m id none ≡ "proved" → truth_of q.host l id none ≡ "proved"

  pub record Harmless {A : Type 0} (m : Method A) : Type 1 where
    pub at : (s : State) → Reachable q.host s.ledger → Follows s.ledger (m s).1.ledger

  Follows-refl : (l : Ledger) → Reachable q.host l → Follows l l
  Follows-refl l r = record { reachable = r; proved_before = λ id h. h }

  module _ {A : Type 0} where
    Harmless-give : (a : A) → Harmless (give a)
    unfolding give
    Harmless-give a = record { at = λ s r. Follows-refl s.ledger r }

    Harmless-look : (f : Ledger → Except QueueError A) → Harmless (look f)
    unfolding look
    Harmless-look f = record { at = λ s r. Follows-refl s.ledger r }

    Harmless-if :
        (b : Bool) (m n : Method A) → Harmless m → Harmless n → Harmless (if b then m else n)
    Harmless-if true m n k l = k
    Harmless-if false m n k l = l

  Harmless-refuse_when : (b : Bool) (e : QueueError) → Harmless (refuse_when b e)
  unfolding refuse_when
  Harmless-refuse_when true e = record { at = λ s r. Follows-refl s.ledger r }
  Harmless-refuse_when false e = record { at = λ s r. Follows-refl s.ledger r }

  module _ {A B : Type 0} where
    goes_on :
        (r : Except QueueError A) (t : State) (f : A → Method B) (s : State)
        → Follows s.ledger t.ledger
        → ((a : A) → Harmless (f a))
        → Follows s.ledger (resume r f t).1.ledger
    goes_on (ok a) t f s h k =
        let g = (k a).at t h.reachable in
        record {
          reachable = g.reachable;
          proved_before = λ id p. h.proved_before id (g.proved_before id p);
        }
    goes_on (err e) t f s h k = h

    Harmless-bind :
        (m : Method A) (f : A → Method B)
        → Harmless m
        → ((a : A) → Harmless (f a))
        → Harmless (m >>= f)
    unfolding ◌>>=◌
    Harmless-bind m f k l = record { at = λ s r. goes_on (m s).0 (m s).1 f s (k.at s r) l }

  module _ {A : Type 0} where
    transact-Follows :
        (envelope : Envelope) (block : Action A) (l : Ledger)
        → envelope.actor_class ≢ "authoritative_evaluator"
        → Uses q.host A block
        → Reachable q.host l
        → Follows l (write q.host envelope q.clock block l).1
    transact-Follows envelope block l p u r = record {
      reachable = next envelope q.clock block r u refl;
      proved_before = λ id h. truth_of-write q.host envelope q.clock block l id r u p h;
    }

    Harmless-gateway :
        (actor_id : String) (scope : Scope) (block : Action A)
        → Uses q.host A block
        → Harmless (transact q (in_scope "lean_scratch_gateway" actor_id scope) block)
    unfolding transact
    Harmless-gateway actor_id scope block u = record {
      at = λ s r. transact-Follows _ block s.ledger (texts_differ _ _ refl) u r;
    }

    Harmless-service :
        (actor_id : String) (scope : Scope) (block : Action A)
        → Uses q.host A block
        → Harmless (transact q (in_scope "ledger_service" actor_id scope) block)
    unfolding transact
    Harmless-service actor_id scope block u = record {
      at = λ s r. transact-Follows _ block s.ledger (texts_differ _ _ refl) u r;
    }

    Harmless-storing :
        (actor_id : String) (scope : Scope) (bytes : Bytes)
        (block : Except LedgerError StoredArtifact → Action A)
        → ((put : Except LedgerError StoredArtifact) → Uses q.host A (block put))
        → Harmless (transact_storing q (in_scope "lean_scratch_gateway" actor_id scope) bytes block)
    unfolding transact_storing
    Harmless-storing actor_id scope bytes block u = record {
      at = λ s r. transact-Follows _ (block _) s.ledger (texts_differ _ _ refl) (u _) r;
    }

  ruleset rules = (
    Harmless-give, Harmless-look, Harmless-if, Harmless-refuse_when, Harmless-bind,
    Harmless-gateway, Harmless-service, Harmless-storing, Uses-record_event, reuse_block-Uses,
    submit_block-Uses, reconcile_block-Uses, complete_block-Uses, invalidate_block-Uses,
  )

  reuse-Harmless : (a : Submission) → Harmless (reuse q a)
  unfolding reuse
  reuse-Harmless a = search rules depth 10

  enqueue-Harmless : (a : Submission) → Harmless (enqueue q a)
  unfolding enqueue
  enqueue-Harmless a = search rules depth 10

  submit-Harmless : (a : Submission) → Harmless (submit q a)
  unfolding submit
  submit-Harmless a = search (rules, reuse-Harmless, enqueue-Harmless) depth 8

  start-Harmless :
      (job_id worker_id : String) (delay : ℕ) → Harmless (start q job_id worker_id delay)
  unfolding start
  start-Harmless job_id worker_id delay = search rules depth 12

  complete-Harmless : (job_id : String) (r : Outcome) → Harmless (complete q job_id r)
  unfolding complete
  complete-Harmless job_id r = search rules depth 16

  invalidate-Harmless : (job_id reason : String) → Harmless (invalidate q job_id reason)
  unfolding invalidate
  invalidate-Harmless job_id reason = search rules depth 10

  interrupt_running-Harmless : (job_id : String) → Harmless (interrupt_running q job_id)
  unfolding interrupt_running
  interrupt_running-Harmless job_id = search rules depth 8

  pub branch-Harmless :
      (running : Bool) (o : ObjectRecord)
      → Harmless (if running then interrupt_running q o.id else give tt)
  branch-Harmless running o =
      Harmless-if running _ _ (interrupt_running-Harmless o.id) (Harmless-give tt)

  reconcile_all-Harmless :
      (key : Option String) (os : List ObjectRecord) → Harmless (reconcile_all q key os)
  unfolding reconcile_all
  reconcile_all-Harmless key [] = search rules
  reconcile_all-Harmless key (o ∷ os) = Harmless-bind (look _) _ (Harmless-look _) (λ running.
      Harmless-bind _ _ (branch-Harmless running o)
        (λ _. Harmless-bind _ _ (reconcile_all-Harmless key os) (λ rest. Harmless-give _)))

  call-Harmless : (c : Call) → Harmless (call q c)
  unfolding call cancel time_out interrupt supersede reconcile
  call-Harmless (Call.submit a) = search (rules, submit-Harmless)
  call-Harmless (Call.start job_id worker_id delay) = search (rules, start-Harmless)
  call-Harmless (Call.complete job_id r) = search (rules, complete-Harmless)
  call-Harmless (Call.invalidate job_id reason) = invalidate-Harmless job_id reason
  call-Harmless (Call.reconcile key) = search (rules, reconcile_all-Harmless) depth 8
  call-Harmless _ = search rules depth 10

-- The calls of a client, one after the other, each after an error of another too.
unfoldable pub serve : DurableCheckQueue → List Call → State → State
serve q [] s = s
serve q (c ∷ cs) s = serve q cs (call q c s).1

-- Whatever clients call on the queue, in whatever order, and whether a call returns or raises: the
-- ledger stays one that write sessions reach, so that its chain verifies and its events are lawful,
-- and no object counts as proved that did not count as proved before.
pub serve-Follows :
    (q : DurableCheckQueue) (cs : List Call) (s : State)
    → Reachable q.host s.ledger
    → Follows q s.ledger (serve q cs s).ledger
unfolding serve
serve-Follows q [] s r = Follows-refl q s.ledger r
serve-Follows q (c ∷ cs) s r =
    let g = (call-Harmless q c).at s r in
    let h = serve-Follows q cs (call q c s).1 g.reachable in
    record {
      reachable = h.reachable;
      proved_before = λ id p. g.proved_before id (h.proved_before id p);
    }
