-- ===== src/Queue/Calls.antt =====
-- The methods of ledger/queue.py `DurableCheckQueue`, as the calls that a client makes.
use lean_evolve.Prelude.{String, ℕ, Option}
use lean_evolve.Queue.Exec.{DurableCheckQueue, Method, give, ◌>>=◌, ◌>>◌}
use lean_evolve.Queue.Blocks.{Submission}
use lean_evolve.Queue.Results.{Outcome}
use lean_evolve.Queue.Submit.{submit as submit_check}
use lean_evolve.Queue.Moves.{
  start as start_check, cancel as cancel_check, time_out as time_out_check,
  interrupt as interrupt_check, supersede as supersede_check, reconcile as reconcile_checks,
}
use lean_evolve.Queue.Complete.{complete as complete_check}
use lean_evolve.Queue.Invalidate.{invalidate as invalidate_check}

pub data Call : Type 0 where
  submit : Submission → Call
  start : String → String → ℕ → Call
  complete : String → Outcome → Call
  cancel : String → String → Call
  time_out : String → ℕ → Call
  interrupt : String → String → Call
  supersede : String → String → Call
  invalidate : String → String → Call
  reconcile : Option String → Call

unfoldable pub call : DurableCheckQueue → Call → Method (Unit {0})
unfolding ◌>>=◌
call q (submit a) = submit_check q a >> give tt
call q (start job_id worker_id queue_delay) = start_check q job_id worker_id queue_delay >> give tt
call q (complete job_id r) = complete_check q job_id r >> give tt
call q (cancel job_id reason) = cancel_check q job_id reason
call q (time_out job_id budget_seconds) = time_out_check q job_id budget_seconds
call q (interrupt job_id detected_by) = interrupt_check q job_id detected_by
call q (supersede job_id newer_job_id) = supersede_check q job_id newer_job_id
call q (invalidate job_id reason) = invalidate_check q job_id reason
call q (reconcile checkpoint_key) = reconcile_checks q checkpoint_key >> give tt
