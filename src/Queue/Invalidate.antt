-- ===== src/Queue/Invalidate.antt =====
-- ledger/queue.py `invalidate`.
use lean_evolve.Prelude.{String, ok}
use lean_evolve.Queue.Exec.{DurableCheckQueue, Method, look, ◌>>=◌, ◌>>◌, transact}
use lean_evolve.Queue.Jobs.{in_scope, scope, from_record}
use lean_evolve.Queue.Withdraw.{corrected_events, claims_made, invalidate_block}

-- `invalidate`
unfoldable pub invalidate : DurableCheckQueue → String → String → Method (Unit {0})
unfolding ◌>>=◌
invalidate q job_id reason = do
  look (from_record q job_id)
  corrected ← look (λ l. ok (corrected_events q job_id l))
  claim_ids ← look (λ l. ok (claims_made q job_id l))
  in_ ← look (λ l. ok (scope q job_id l))
  transact q (in_scope "ledger_service" "tool:scratch-check-invalidation-v1" in_)
      (invalidate_block q job_id reason corrected claim_ids)
