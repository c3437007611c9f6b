-- ===== src/Queue/Results.antt =====
-- The block of ledger/queue.py `complete`: how the result of a check enters the ledger.
use Prim.Native.String.{◌++◌ as text_append, slice}
use lean_evolve.Prelude.{
  ℕ, String, Bool, Option, none, some, List, [], ◌∷◌, maybe, is_some, ◌==◌, Except, map, reverse,
  if◌then◌else◌,
}
use lean_evolve.Value.{
  Value, int, str, dict, array, Items, nil, cons, Fields, empty, entry, get, keys,
}
use lean_evolve.Events.{Draft}
use lean_evolve.Store.Tables.{object}
use lean_evolve.Store.Exec.{
  LedgerError, missing_key, not_iterable, Action, pure, lift, gets, ◌>>=◌, ◌>>◌, or_raise,
}
use lean_evolve.Store.Session.{plain, record_event}
use lean_evolve.Store.Objects.{NewObject, create_object}
use lean_evolve.Store.Connections.{connect}
use lean_evolve.Artifacts.Files.{StoredArtifact}
use lean_evolve.Artifacts.Entered.{Registration, register_stored, text_of}
use lean_evolve.Queue.Exec.{DurableCheckQueue}
use lean_evolve.Queue.Jobs.{CheckJob}

-- The arguments of `complete`; a declaration is the `dict` that the worker reports.
pub record Outcome : Type 0 where
  pub outcome : String
  pub exit_code : Bool × ℕ
  pub diagnostics : String
  pub declarations : List Fields
  pub phase_timings : Fields

unfoldable pub items : List Value → Items
items [] = nil
items (x ∷ xs) = cons x (items xs)

unfoldable values : Items → List Value
values nil = []
values (cons x xs) = x ∷ values xs

unfoldable letters : String → List Value
letters String.[] = []
letters (String.◌∷◌ c s) = str (String.◌∷◌ c "") ∷ letters s

-- What a `for` loop over a value runs through: a list, the keys of a `dict`, the letters of a text.
unfoldable pub iterate : Value → Option (List Value)
unfolding values letters
iterate (array xs) = some (values xs)
iterate (dict d) = some (map str (keys d))
iterate (str s) = some (letters s)
iterate v = none

-- `by_declaration.get(name)`; the last assignment stands first
unfoldable pub claim_named : String → List (String × String) → Option String
claim_named name [] = none
claim_named name ((other, id) ∷ rest) = if name == other then some id else claim_named name rest

abbrev exit_value : Bool × ℕ → Value
exit_value (below_zero, n) = int below_zero n

abbrev or_text : Option String → String → String
or_text none d = d
or_text (some s) d = s

module _ (q : DurableCheckQueue) where
  abbrev text_digest : String → String
  text_digest t = q.codec.digest (q.codec.encode t)

  -- `str(item.get("declaration", ""))`
  abbrev declared_name : Fields → String
  declared_name item = maybe "" (text_of q.codec) (get "declaration" item)

  abbrev pub result_fields : String → Outcome → Fields
  result_fields job_id r = entry "format" (str "leanevolve-scratch-result-v1") (
      entry "job_id" (str job_id) (
        entry "outcome" (str r.outcome) (
          entry "exit_code" (exit_value r.exit_code) (
            entry "diagnostics" (str r.diagnostics) (
              entry "declarations" (array (items (map dict r.declarations)))
                (entry "phase_timings" (dict r.phase_timings) empty))))))

  abbrev pub result_registration : String → Registration
  result_registration job_id = record {
    artifact_type = "scratch_result";
    media_type = "application/json";
    canonical_name = some (text_append "Scratch result for " job_id);
    extra_locations = [];
  }

  abbrev claim_of : CheckJob → String → String → String → NewObject
  claim_of job claim_id declaration proposition = record {
    id = claim_id;
    kind = "formal_claim";
    canonical_name = declaration;
    content_format = "lean";
    content = proposition;
    properties = entry "formal_system" (str "lean4") (
        entry "declaration" (str declaration) (
          entry "proposition_sha256" (str (text_digest proposition))
            (entry "environment_identity" (str job.environment_identity) empty)));
    occurred_at = none;
  }

  abbrev scratch_checked : CheckJob → String → String → String → Value → String → Draft
  scratch_checked job claim_id declaration proposition dependencies evidence = record {
    action = "scratch_kernel_checked";
    subject_type = "object";
    subject_id = claim_id;
    payload = entry "declaration" (str declaration) (
        entry "proposition_sha256" (str (text_digest proposition)) (
          entry "checkpoint_key" (str job.checkpoint_key)
            (entry "direct_dependencies" dependencies empty)));
    evidence_object_id = some evidence;
    idempotency_key = some (
        text_append "scratch-checked:"
          (text_append job.id (text_append ":" (text_digest proposition))));
    occurred_at = none;
  }

  -- `for focus_goal in focus_goals: …`
  unfoldable pub advance_goals : String → List String → Action (Unit {0})
  unfolding ◌>>=◌
  advance_goals claim_id [] = pure tt
  advance_goals claim_id (goal ∷ goals) = do
    if claim_id == goal
        then pure tt
        else connect q.host claim_id "advances" goal empty none >> pure tt
    advance_goals claim_id goals

  -- The body of the first loop over the declarations.
  unfoldable pub enter_claim : CheckJob → List String → String → Fields → Action (String × String)
  unfolding ◌>>=◌ advance_goals
  enter_claim job goals evidence item = do
    name ← or_raise (get "declaration" item) (missing_key "declaration")
    statement ← or_raise (get "proposition" item) (missing_key "proposition")
    let declaration = text_of q.codec name
    let proposition = text_of q.codec statement
    let claim_id = text_append "claim:" (slice (text_digest proposition) 0 12)
    known ← gets (λ l. object q.host l claim_id)
    if is_some known
        then pure tt
        else create_object q.host (claim_of job claim_id declaration proposition) >> pure tt
    connect q.host claim_id "produced_by" job.id empty none
    advance_goals claim_id goals
    record_event q.host (
        scratch_checked job claim_id declaration proposition
          (maybe (array nil) (λ v. v) (get "direct_dependencies" item)) evidence)
    pure (declaration, claim_id)

  unfoldable pub enter_claims :
      CheckJob → List String → String → List Fields → Action (List (String × String))
  unfolding ◌>>=◌ enter_claim
  enter_claims job goals evidence [] = pure []
  enter_claims job goals evidence (item ∷ rest) = do
    entered ← enter_claim job goals evidence item
    others ← enter_claims job goals evidence rest
    pure (entered ∷ others)

  -- `for dependency in …: …`, of one declaration
  unfoldable pub connect_dependencies :
      List (String × String) → Option String → List Value → Action (Unit {0})
  unfolding ◌>>=◌ claim_named
  connect_dependencies names source [] = pure tt
  connect_dependencies names source (d ∷ ds) = do
    maybe (pure tt)
        (λ from.
          maybe (pure tt) (λ to. connect q.host from "depends_on" to empty none >> pure tt)
            (claim_named (text_of q.codec d) names))
        source
    connect_dependencies names source ds

  -- The second loop over the declarations.
  unfoldable pub connect_all : List (String × String) → List Fields → Action (Unit {0})
  unfolding ◌>>=◌ connect_dependencies
  connect_all names [] = pure tt
  connect_all names (item ∷ rest) = do
    name ← or_raise (get "declaration" item) (missing_key "declaration")
    dependencies ←
        or_raise (iterate (maybe (array nil) (λ v. v) (get "direct_dependencies" item)))
          not_iterable
    connect_dependencies names (claim_named (text_of q.codec name) names) dependencies
    connect_all names rest

  abbrev diagnostics_sha256 : Outcome → Value
  diagnostics_sha256 r = str (text_digest r.diagnostics)

  abbrev pub completed : String → Outcome → String → Draft
  completed job_id r evidence = record {
    action = "check_completed";
    subject_type = "object";
    subject_id = job_id;
    payload = entry "outcome" (str r.outcome) (
        entry "exit_code" (exit_value r.exit_code) (
          entry "phase_timings" (dict r.phase_timings)
            (entry "diagnostics_sha256" (diagnostics_sha256 r) empty)));
    evidence_object_id = some evidence;
    idempotency_key = none;
    occurred_at = none;
  }

  abbrev pub failed_draft : String → Outcome → Draft
  failed_draft job_id r = plain "check_failed" job_id (
      entry "exit_code" (exit_value r.exit_code) (
        entry "phase_timings" (dict r.phase_timings)
          (entry "diagnostics_sha256" (diagnostics_sha256 r) empty)))

  -- The branch of a successful outcome, with the ids of the claims.
  unfoldable pub succeed : CheckJob → List String → Outcome → String → Action (List String)
  unfolding ◌>>=◌ enter_claims connect_all
  succeed job goals r evidence = do
    record_event q.host (
        plain "elaboration_succeeded" job.id (
          entry "declarations" (array (items (map (λ i. str (declared_name i)) r.declarations)))
            empty))
    entered ← enter_claims job goals evidence r.declarations
    connect_all (reverse entered) r.declarations
    record_event q.host (completed job.id r evidence)
    pure (map (λ p. p.1) entered)

  -- The branch of any other outcome.
  unfoldable pub fail : CheckJob → Outcome → Action (List String)
  unfolding ◌>>=◌
  fail job r = do
    record_event q.host (
        plain "elaboration_failed" job.id (entry "diagnostics_sha256" (diagnostics_sha256 r) empty))
    record_event q.host (failed_draft job.id r)
    pure []

  -- The block of `complete`, from the result of `put_bytes`: the id of the result and the claims
  unfoldable pub complete_block :
      CheckJob
      → List String
      → Outcome
      → Except LedgerError StoredArtifact
      → Action (String × List String)
  unfolding ◌>>=◌ succeed fail
  complete_block job goals r put = do
    kept ← lift put
    register_stored q.host kept (result_registration job.id)
    connect q.host kept.object_id "produced_by" job.id empty none
    claim_ids ← if r.outcome == "success" then succeed job goals r kept.object_id else fail job r
    pure (kept.object_id, claim_ids)
