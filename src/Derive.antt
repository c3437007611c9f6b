-- ===== src/Derive.antt =====
-- ledger/derive.py: every status is computed from events and edges, and none is stored.
pub mod Truth
pub mod Dimension
pub mod Trust
pub mod Later
use lean_evolve.Prelude.{
  ℕ, ◌<◌, String, Bool, true, false, not, ◌&&◌, ◌||◌, Option, none, some, List, [], ◌∷◌, map, any,
  mem, select, maybe, is_some, leb, ltb, ◌==◌, Except, ok, err, ◌>>=◌, if◌then◌else◌,
}
use lean_evolve.Value.{Value, str, get, Fields, Host}
use lean_evolve.Vocabulary.Validate.{Checked, dominant_verification_level, is_text, text_in}
use lean_evolve.Events.{Event}
use lean_evolve.Store.Tables.{
  Ledger, ObjectRecord, ConnectionRecord, fields_of, object, connections, events_of,
}

-- `table.get(name)`
abbrev pub table_get : String → List (String × String) → Option String
table_get k [] = none
table_get k ((j, v) ∷ rest) = if k == j then some v else table_get k rest

abbrev pub verification_events : List (String × String)
verification_events =
    ("scratch_kernel_checked", "scratch_checked")
    ∷ ("axiom_policy_audited", "axiom_policy_audited")
    ∷ ("authoritative_evaluation_recorded", "authoritatively_evaluated")
    ∷ ("kernel_certified", "authoritatively_evaluated")
    ∷ ("promotion_audited", "promotion_audited")
    ∷ ("promotion_recorded", "promotion_audited")
    ∷ ("elaboration_failed", "elaboration_failed")
    ∷ []

abbrev pub operational_events : List (String × String)
operational_events =
    ("check_submitted", "queued")
    ∷ ("check_started", "running")
    ∷ ("check_completed", "completed")
    ∷ ("check_failed", "failed")
    ∷ ("check_timed_out", "timed_out")
    ∷ ("check_interrupted", "interrupted")
    ∷ ("check_cancelled", "interrupted")
    ∷ ("check_superseded", "interrupted")
    ∷ ("computation_started", "running")
    ∷ ("computation_completed", "completed")
    ∷ ("campaign_started", "running")
    ∷ ("epoch_started", "running")
    ∷ ("turn_started", "running")
    ∷ []

abbrev pub lifecycle_events : List (String × String)
lifecycle_events =
    ("object_superseded", "superseded")
    ∷ ("object_retracted", "retracted")
    ∷ ("artifact_archived", "archived")
    ∷ []

abbrev pub scope_completions : List String
scope_completions = "turn_completed" ∷ "epoch_completed" ∷ "campaign_completed" ∷ []

-- The levels that the events record, in order.
unfoldable pub recorded_levels : List Event → List String
recorded_levels [] = []
recorded_levels (e ∷ es) =
    maybe (recorded_levels es) (λ level. level ∷ recorded_levels es)
      (table_get e.action verification_events)

-- `_verification`
unfoldable pub verification : List Event → Checked String
unfolding recorded_levels
verification es = dominant_verification_level (recorded_levels es)

-- The step of the loop of `_lifecycle`.
unfoldable pub lifecycle_step : String → Event → String
lifecycle_step state e = maybe state (λ s. s) (table_get e.action lifecycle_events)

unfoldable pub lifecycle_from : String → List Event → String
lifecycle_from state [] = state
lifecycle_from state (e ∷ es) = lifecycle_from (lifecycle_step state e) es

-- `_lifecycle`
unfoldable pub lifecycle : List Event → String
unfolding lifecycle_from lifecycle_step
lifecycle es = lifecycle_from "active" es

-- `if isinstance(recorded, str): state = recorded`
abbrev pub text_or : Option String → Option Value → Option String
text_or state (some (str s)) = some s
text_or state v = state

-- The step of the loop of `_operational`.
unfoldable pub operational_step : Option String → Event → Option String
operational_step state e =
    maybe
      (if mem e.action scope_completions
        then text_or state (get "operational_state" (fields_of e.payload))
        else state)
      some (table_get e.action operational_events)

unfoldable pub operational_from : Option String → List Event → Option String
operational_from state [] = state
operational_from state (e ∷ es) = operational_from (operational_step state e) es

-- `_operational`
unfoldable pub operational : List Event → Option String
unfolding operational_from operational_step
operational es = operational_from none es

-- The step of the loop of `_is_proved`.
unfoldable pub proved_step : Bool → Event → Bool
proved_step certified e =
    if e.action == "kernel_certified"
    then true
    else if e.action == "object_retracted"
    then false
    else certified

unfoldable pub proved_from : Bool → List Event → Bool
proved_from certified [] = certified
proved_from certified (e ∷ es) = proved_from (proved_step certified e) es

-- `_is_proved`
unfoldable pub is_proved : List Event → Bool
unfolding proved_from proved_step
is_proved es = proved_from false es

-- `properties.get(name) == value`, for a text `value`
abbrev pub property_is : String → String → ConnectionRecord → Bool
property_is name value c = maybe false (is_text value) (get name (fields_of c.properties))

-- The two tests of `truth_of` on the time of an edge: it was there at the event `until`, and it is
-- not retracted then.
abbrev pub stood_at : Option ℕ → ConnectionRecord → Bool
stood_at none c = not (is_some c.retracted_event_id)
stood_at (some n) c = leb c.created_event_id n && maybe true (λ r. ltb n r) c.retracted_event_id

module _ (host : Host) where
  -- Whether an edge refutes its target: the loop body of `truth_of`.
  unfoldable pub refutes : Ledger → Option ℕ → ConnectionRecord → Bool
  refutes l until c =
      property_is "trust_level" "kernel" c
      && (stood_at until c && is_proved (events_of host l (some c.from_id) until))

  unfoldable pub truth_of : Ledger → String → Option ℕ → String
  unfolding refutes
  truth_of l object_id until =
      if is_proved (events_of host l (some object_id) until)
      then "proved"
      else if any (refutes l until)
          (connections host l none (some object_id) (some "refutes") false)
      then "refuted"
      else "open"

  -- Whether an edge gives one of these relationships.
  abbrev gives : List String → ConnectionRecord → Bool
  gives names c =
      maybe false (text_in names) (get "formalization_relationship" (fields_of c.properties))

  abbrev until_allows : Option ℕ → ConnectionRecord → Bool
  until_allows none c = true
  until_allows (some n) c = leb c.created_event_id n

  -- The result of `encoding_of` from the edges that it keeps.
  unfoldable pub encoding_from : List ConnectionRecord → String
  encoding_from [] = "not_encoded"
  encoding_from (c ∷ cs) =
      if any (gives ("literal_encoding" ∷ "equivalence" ∷ [])) (c ∷ cs)
      then "fully_encoded"
      else if any (gives ("specialization" ∷ "strengthening" ∷ "weakening" ∷ "consequence" ∷ []))
          (c ∷ cs)
      then "partially_formalized"
      else "proposition_only"

  unfoldable pub encoding_of : Ledger → String → Option ℕ → String
  unfolding encoding_from
  encoding_of l object_id until = encoding_from (
      select (until_allows until)
        (connections host l (some object_id) none (some "formalized_as") false))

pub record DerivedState : Type 0 where
  pub object_id : String
  pub truth : String
  pub verification : String
  pub encoding : String
  pub lifecycle : String
  pub operational : Option String
  pub source_evidence : Option String

module _ (host : Host) where
  unfoldable pub state_of : Ledger → String → Option ℕ → Checked DerivedState
  state_of l object_id until = do
    let es = events_of host l (some object_id) until
    level ← verification es
    ok (record {
      object_id = object_id;
      truth = truth_of host l object_id until;
      verification = level;
      encoding = encoding_of host l object_id until;
      lifecycle = lifecycle es;
      operational = operational es;
      source_evidence =
          maybe none (λ o. text_or none (get "source_evidence_state" (fields_of o.properties)))
            (object host l object_id);
    })
