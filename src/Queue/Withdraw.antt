-- ===== src/Queue/Withdraw.antt =====
-- The block of ledger/queue.py `invalidate`: a false result is withdrawn, with the edges that only it
-- supports.
use Prim.Native.String.{◌++◌ as text_append}
use lean_evolve.Prelude.{
  ℕ, String, Bool, true, false, not, ◌||◌, none, some, List, [], ◌∷◌, any, mem, select, maybe, ◌==◌,
  Except, ok, err, map, if◌then◌else◌,
}
use lean_evolve.Value.{int, str, empty, entry}
use lean_evolve.Events.{Draft, Event}
use lean_evolve.Store.Tables.{Ledger, ConnectionRecord, object, connections, events_of}
use lean_evolve.Store.Exec.{LedgerError, vocabulary, Action, pure, lift, gets, ◌>>=◌, ◌>>◌}
use lean_evolve.Store.Session.{record_event}
use lean_evolve.Store.Connections.{retract}
use lean_evolve.Derive.{state_of}
use lean_evolve.Queue.Exec.{DurableCheckQueue}

abbrev corrected_actions : List String
corrected_actions = "elaboration_succeeded" ∷ "check_completed" ∷ []

-- `active_checks.append(…)`
abbrev noted : {E : Type 0} → Except E Bool → Except E Bool
noted (ok b) = ok true
noted (err e) = err e

module _ (q : DurableCheckQueue) where
  -- `corrected`: the ids of the events of a result
  unfoldable pub corrected_events : String → Ledger → List Event
  corrected_events job_id l =
      select (λ e. mem e.action corrected_actions) (events_of q.host l (some job_id) none)

  abbrev is_kind : String → String → Ledger → Bool
  is_kind kind id l = maybe false (λ o. o.kind == kind) (object q.host l id)

  -- `claim_ids`: the formal claims that the check produced
  unfoldable pub claims_made : String → Ledger → List String
  claims_made job_id l =
      map (λ c. c.from_id)
        (select (λ c. is_kind "formal_claim" c.from_id l)
          (connections q.host l none (some job_id) (some "produced_by") false))

  abbrev correction : String → String → ℕ → Draft
  correction job_id reason event_id = record {
    action = "correction_recorded";
    subject_type = "object";
    subject_id = job_id;
    payload = entry "reason" (str reason) (entry "corrects_event_id" (int false event_id) empty);
    evidence_object_id = none;
    idempotency_key =
        some (text_append "invalidate-check-event:" (q.codec.show (int false event_id)));
    occurred_at = none;
  }

  abbrev withdrawal : String → String → Draft
  withdrawal job_id reason = record {
    action = "object_retracted";
    subject_type = "object";
    subject_id = job_id;
    payload = entry "reason" (str reason) empty;
    evidence_object_id = none;
    idempotency_key = some (text_append "invalidate-check:" job_id);
    occurred_at = none;
  }

  unfoldable pub correct_all : String → String → List Event → Action (Unit {0})
  unfolding ◌>>=◌
  correct_all job_id reason [] = pure tt
  correct_all job_id reason (e ∷ es) = do
    record_event q.host (correction job_id reason e.id)
    correct_all job_id reason es

  -- `for claim_id in claim_ids: session.retract(claim_id, "produced_by", job_id, …)`
  unfoldable pub retract_products : String → String → List String → Action (Unit {0})
  unfolding ◌>>=◌
  retract_products job_id reason [] = pure tt
  retract_products job_id reason (id ∷ ids) = do
    retract q.host id "produced_by" job_id reason
    retract_products job_id reason ids

  -- The loop that collects `active_checks`: whether it collects one, unless derived state raises.
  unfoldable pub checked_elsewhere : Ledger → List ConnectionRecord → Except LedgerError Bool
  checked_elsewhere l [] = ok false
  checked_elsewhere l (c ∷ cs) =
      let rest = checked_elsewhere l cs in
      if not (is_kind "check" c.to_id l) then rest else elim (state_of q.host l c.to_id none) [
        | err e ↦ err (vocabulary e)
        | ok s ↦ if s.lifecycle == "active" then noted rest else rest
      ]

  -- `for edge in list(…): session.retract(…)`
  unfoldable pub retract_edges : String → String → List ConnectionRecord → Action (Unit {0})
  unfolding ◌>>=◌
  retract_edges relation reason [] = pure tt
  retract_edges relation reason (c ∷ cs) = do
    retract q.host c.from_id relation c.to_id reason
    retract_edges relation reason cs

  abbrev edges_from : String → String → Ledger → List ConnectionRecord
  edges_from id relation l = connections q.host l (some id) none (some relation) false

  -- The last loop of `invalidate`: a claim that no active check and no inclusion supports loses its
  -- edges.
  unfoldable pub withdraw_claim : String → String → Action (Unit {0})
  unfolding ◌>>=◌ retract_edges
  withdraw_claim reason claim_id = do
    found ← gets (λ l. checked_elsewhere l (edges_from claim_id "produced_by" l))
    supported ← lift found
    included ← gets (edges_from claim_id "included_in")
    if supported || any (λ (c : ConnectionRecord). true) included
        then pure tt
        else (gets (edges_from claim_id "advances")
            >>= retract_edges "advances" reason
            >> (gets (edges_from claim_id "depends_on") >>= retract_edges "depends_on" reason))

  unfoldable pub withdraw_claims : String → List String → Action (Unit {0})
  unfolding ◌>>=◌ withdraw_claim
  withdraw_claims reason [] = pure tt
  withdraw_claims reason (id ∷ ids) = do withdraw_claim reason id; withdraw_claims reason ids

  -- The block of `invalidate`, from the events and the claims that it has read before.
  unfoldable pub invalidate_block : String → String → List Event → List String → Action (Unit {0})
  unfolding ◌>>=◌ correct_all retract_products withdraw_claims
  invalidate_block job_id reason corrected claim_ids = do
    correct_all job_id reason corrected
    record_event q.host (withdrawal job_id reason)
    retract_products job_id reason claim_ids
    withdraw_claims reason claim_ids
