-- ===== src/Queue/Submit.antt =====
-- ledger/queue.py `submit`.
use lean_evolve.Prelude.{
  String, Bool, true, false, ◌||◌, Option, none, length, maybe, is_some, leb, if◌then◌else◌,
}
use lean_evolve.Vocabulary.Validate.{truthy}
use lean_evolve.Events.{Envelope}
use lean_evolve.Store.Tables.{object}
use lean_evolve.Queue.Exec.{
  queue_full, DurableCheckQueue, Method, give, look, refuse_when, ◌>>=◌, ◌>>◌, transact,
  transact_storing,
}
use lean_evolve.Prelude.{ok}
use lean_evolve.Queue.Jobs.{CheckJob, Scope, in_scope, from_record, pending}
use lean_evolve.Queue.Blocks.{Submission, submitted_job, reuse_block, submit_block}

abbrev pub scoped : Scope → Bool
scoped s = truthy s.campaign_id || (truthy s.epoch_id || truthy s.turn_id)

abbrev or_else : Option String → String → String
or_else o other = if truthy o then maybe other (λ s. s) o else other

-- `turn_id or epoch_id or campaign_id or "unscoped"`
abbrev reuse_scope : Scope → String
reuse_scope s = or_else s.turn_id (or_else s.epoch_id (or_else s.campaign_id "unscoped"))

abbrev pub gateway : Scope → Envelope
gateway s = in_scope "lean_scratch_gateway" "tool:durable-check-queue-v1" s

module _ (q : DurableCheckQueue) where
  -- The write of the branch for a job that is there.
  abbrev pub note_reuse : Submission → Method (Unit {0})
  note_reuse a =
      if scoped a.scope
      then transact q (gateway a.scope) (reuse_block q (submitted_job q a) (reuse_scope a.scope))
        >> give tt
      else give tt

  -- The branch for a job that is there.
  unfoldable pub reuse : Submission → Method (CheckJob × Bool)
  unfolding ◌>>=◌
  reuse a = do note_reuse a; job ← look (from_record q (submitted_job q a)); give (job, true)

  -- The branch for a new job.
  unfoldable pub enqueue : Submission → Method (CheckJob × Bool)
  unfolding ◌>>=◌
  enqueue a = do
    waiting ← look (pending q none)
    refuse_when (leb q.max_pending (length waiting)) (queue_full q.max_pending)
    transact_storing q (gateway a.scope) a.source (submit_block q a)
    job ← look (from_record q (submitted_job q a))
    give (job, false)

  -- `submit`
  unfoldable pub submit : Submission → Method (CheckJob × Bool)
  unfolding ◌>>=◌ reuse enqueue
  submit a = do
    known ← look (λ l. ok (object q.host l (submitted_job q a)))
    if is_some known then reuse a else enqueue a
