-- ===== src/Queue/Used.antt =====
-- The blocks of ledger/queue.py and ledger/artifacts.py, as blocks of a write session.
use lean_evolve.Prelude.{String, List, [], ◌∷◌, Option, none, some, Except}
use lean_evolve.Value.{Value, Fields, Host}
use lean_evolve.Events.{Event}
use lean_evolve.Store.Tables.{ConnectionRecord, ObjectRecord}
use lean_evolve.Store.Exec.{LedgerError}
use lean_evolve.Store.Block.{
  Uses, Uses-pure, Uses-raise, Uses-lift, Uses-gets, Uses-or_raise, Uses-if, Uses-raise_when,
  Uses-maybe, Uses-bind, Uses-record_event, Uses-create_object, Uses-connect, Uses-retract,
  Uses-register_artifact, Uses-add_location,
}
use lean_evolve.Artifacts.Files.{StoredArtifact}
use lean_evolve.Artifacts.Entered.{Registration, add_locations, require_same, register_stored}
use lean_evolve.Queue.Exec.{DurableCheckQueue}
use lean_evolve.Queue.Jobs.{CheckJob}
use lean_evolve.Queue.Blocks.{Submission, reuse_block, submit_block, reconcile_block}
use lean_evolve.Queue.Results.{
  Outcome, advance_goals, enter_claim, enter_claims, connect_dependencies, connect_all, succeed,
  fail, complete_block,
}
use lean_evolve.Queue.Withdraw.{
  correct_all, retract_products, retract_edges, withdraw_claim, withdraw_claims, invalidate_block,
}

module _ (host : Host) where
  ruleset rules = (
    Uses-pure, Uses-raise, Uses-lift, Uses-gets, Uses-or_raise, Uses-if, Uses-raise_when,
    Uses-maybe, Uses-bind, Uses-record_event, Uses-create_object, Uses-connect, Uses-retract,
    Uses-register_artifact, Uses-add_location,
  )

  add_locations-Uses : (id : String) (ps : List String) → Uses host _ (add_locations host id ps)
  unfolding add_locations
  add_locations-Uses id [] = search rules
  add_locations-Uses id (p ∷ ps) = search (rules, add_locations-Uses id ps) depth 8

  require_same-Uses :
      (a : StoredArtifact) (r : Registration) (o : Option ObjectRecord)
      → Uses host _ (require_same host a r o)
  unfolding require_same
  require_same-Uses a r none = search rules depth 8
  require_same-Uses a r (some o) = search rules

  pub register_stored-Uses :
      (a : StoredArtifact) (r : Registration) → Uses host _ (register_stored host a r)
  unfolding register_stored
  register_stored-Uses a r = search (rules, require_same-Uses, add_locations-Uses) depth 12

module _ (q : DurableCheckQueue) where
  pub reuse_block-Uses : (job_id scope : String) → Uses q.host _ (reuse_block q job_id scope)
  unfolding reuse_block
  reuse_block-Uses job_id scope = search rules depth 8

  pub submit_block-Uses :
      (a : Submission) (put : Except LedgerError StoredArtifact)
      → Uses q.host _ (submit_block q a put)
  unfolding submit_block
  submit_block-Uses a put = search (rules, register_stored-Uses) depth 14

  pub reconcile_block-Uses : (job_id : String) → Uses q.host _ (reconcile_block q job_id)
  unfolding reconcile_block
  reconcile_block-Uses job_id = search rules depth 8

  advance_goals-Uses : (id : String) (gs : List String) → Uses q.host _ (advance_goals q id gs)
  unfolding advance_goals
  advance_goals-Uses id [] = search rules
  advance_goals-Uses id (g ∷ gs) = search (rules, advance_goals-Uses id gs) depth 10

  enter_claim-Uses :
      (job : CheckJob) (gs : List String) (evidence : String) (item : Fields)
      → Uses q.host _ (enter_claim q job gs evidence item)
  unfolding enter_claim
  enter_claim-Uses job gs evidence item = search (rules, advance_goals-Uses) depth 20

  pub enter_claims-Uses :
      (job : CheckJob) (gs : List String) (evidence : String) (items : List Fields)
      → Uses q.host _ (enter_claims q job gs evidence items)
  unfolding enter_claims
  enter_claims-Uses job gs evidence [] = search rules
  enter_claims-Uses job gs evidence (i ∷ is) =
      search (rules, enter_claim-Uses, enter_claims-Uses job gs evidence is) depth 10

  connect_dependencies-Uses :
      (names : List (String × String)) (source : Option String) (ds : List Value)
      → Uses q.host _ (connect_dependencies q names source ds)
  unfolding connect_dependencies
  connect_dependencies-Uses names source [] = search rules
  connect_dependencies-Uses names source (d ∷ ds) =
      search (rules, connect_dependencies-Uses names source ds) depth 12

  pub connect_all-Uses :
      (names : List (String × String)) (items : List Fields)
      → Uses q.host _ (connect_all q names items)
  unfolding connect_all
  connect_all-Uses names [] = search rules
  connect_all-Uses names (i ∷ is) =
      search (rules, connect_dependencies-Uses, connect_all-Uses names is) depth 12

  succeed-Uses :
      (job : CheckJob) (gs : List String) (r : Outcome) (evidence : String)
      → Uses q.host _ (succeed q job gs r evidence)
  unfolding succeed
  succeed-Uses job gs r evidence = search (rules, enter_claims-Uses, connect_all-Uses) depth 12

  fail-Uses : (job : CheckJob) (r : Outcome) → Uses q.host _ (fail q job r)
  unfolding fail
  fail-Uses job r = search rules depth 10

  pub complete_block-Uses :
      (job : CheckJob) (gs : List String) (r : Outcome) (put : Except LedgerError StoredArtifact)
      → Uses q.host _ (complete_block q job gs r put)
  unfolding complete_block
  complete_block-Uses job gs r put =
      search (rules, register_stored-Uses, succeed-Uses, fail-Uses) depth 14

  correct_all-Uses :
      (id reason : String) (es : List Event) → Uses q.host _ (correct_all q id reason es)
  unfolding correct_all
  correct_all-Uses id reason [] = search rules
  correct_all-Uses id reason (e ∷ es) = search (rules, correct_all-Uses id reason es) depth 8

  retract_products-Uses :
      (id reason : String) (ids : List String) → Uses q.host _ (retract_products q id reason ids)
  unfolding retract_products
  retract_products-Uses id reason [] = search rules
  retract_products-Uses id reason (i ∷ is) =
      search (rules, retract_products-Uses id reason is) depth 8

  retract_edges-Uses :
      (relation reason : String) (cs : List ConnectionRecord)
      → Uses q.host _ (retract_edges q relation reason cs)
  unfolding retract_edges
  retract_edges-Uses relation reason [] = search rules
  retract_edges-Uses relation reason (c ∷ cs) =
      search (rules, retract_edges-Uses relation reason cs) depth 8

  withdraw_claim-Uses : (reason id : String) → Uses q.host _ (withdraw_claim q reason id)
  unfolding withdraw_claim
  withdraw_claim-Uses reason id = search (rules, retract_edges-Uses) depth 14

  withdraw_claims-Uses :
      (reason : String) (ids : List String) → Uses q.host _ (withdraw_claims q reason ids)
  unfolding withdraw_claims
  withdraw_claims-Uses reason [] = search rules
  withdraw_claims-Uses reason (i ∷ is) =
      search (rules, withdraw_claim-Uses, withdraw_claims-Uses reason is) depth 8

  pub invalidate_block-Uses :
      (id reason : String) (es : List Event) (ids : List String)
      → Uses q.host _ (invalidate_block q id reason es ids)
  unfolding invalidate_block
  invalidate_block-Uses id reason es ids =
      search (rules, correct_all-Uses, retract_products-Uses, withdraw_claims-Uses) depth 12
