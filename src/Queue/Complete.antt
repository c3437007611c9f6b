-- ===== src/Queue/Complete.antt =====
-- ledger/queue.py `complete` and `source_bytes`.
use Prim.Native.String.{◌++◌ as text_append, slice, count}
use lean_evolve.Prelude.{
  ℕ, String, Bool, not, ◌+◌, List, length, maybe, ◌==◌, Except, ok, err, raise_as, if◌then◌else◌,
}
use lean_evolve.Value.{dict}
use lean_evolve.Store.Tables.{Ledger}
use lean_evolve.Store.Exec.{unencodable}
use lean_evolve.Store.Artifacts.{artifact_id_prefix}
use lean_evolve.Artifacts.Files.{Bytes, read}
use lean_evolve.Queue.Exec.{
  QueueError, session, stored, not_running, DurableCheckQueue, State, Method, give, look,
  refuse_when, ◌>>=◌, ◌>>◌, transact_storing,
}
use lean_evolve.Queue.Jobs.{in_scope, scope, focus_goals, from_record}
use lean_evolve.Queue.Results.{Outcome, result_fields, complete_block}

-- `CheckResult`
pub record CheckResult : Type 0 where
  pub job_id : String
  pub outcome : String
  pub exit_code : Bool × ℕ
  pub result_artifact_id : String
  pub claim_ids : List String
  pub event_range : ℕ × ℕ

-- `Ledger.event_count`
abbrev event_count : Ledger → ℕ
event_count l = length l.events

-- `removeprefix`
abbrev remove_prefix : String → String → String
remove_prefix prefix t =
    if slice t 0 (count prefix) == prefix then slice t (count prefix) (count t) else t

module _ (q : DurableCheckQueue) where
  -- `(canonical_json(result_payload) + "\n").encode()`
  abbrev result_bytes : String → Outcome → Except QueueError Bytes
  result_bytes job_id r =
      maybe (err (session unencodable)) (λ t. ok (q.codec.encode (text_append t "\n")))
        (q.host.dumps (dict (result_fields q job_id r)))

  -- `complete`
  unfoldable pub complete : String → Outcome → Method CheckResult
  unfolding ◌>>=◌
  complete job_id r = do
    job ← look (from_record q job_id)
    refuse_when (not (job.state == "running")) (not_running job_id job.state)
    before ← look (λ l. ok (event_count l))
    goals ← look (λ l. ok (focus_goals q job_id l))
    in_ ← look (λ l. ok (scope q job_id l))
    bytes ← look (λ l. result_bytes job_id r)
    ids ←
        transact_storing q (in_scope "lean_scratch_gateway" "tool:warm-lean-worker-v1" in_) bytes
          (complete_block q job goals r)
    after ← look (λ l. ok (event_count l))
    give (record {
      job_id = job_id;
      outcome = r.outcome;
      exit_code = r.exit_code;
      result_artifact_id = ids.0;
      claim_ids = ids.1;
      event_range = (before + 1, after);
    })

  -- `source_bytes`
  unfoldable pub source_bytes : String → State → Except QueueError Bytes
  source_bytes job_id s = elim (from_record q job_id s.ledger) [
    | err e ↦ err e
    | ok job ↦
        raise_as stored
          (read q.codec q.root (remove_prefix artifact_id_prefix job.source_artifact_id) s.files)
  ]
