-- ===== src/Tests/Integrity.antt =====
-- A ledger with one object, over a host that keeps the fields of a payload (ledger/integrity.py).
use lean_evolve.Prelude.{
  ℕ, String, ◌≡◌, refl, sym, ◌∙◌, inl, inr, false, Option, none, some, List, [], ◌∷◌, Bool-cases,
  some_inj, arith, ◌==◌, if◌then◌else◌, ap, length,
}
use lean_evolve.Value.{
  Value, null, int, str, dict, Fields, empty, entry, Host, KeepsFields, value_eq, value_eq_sound,
}
use lean_evolve.Events.{Envelope, genesis_hash}
use lean_evolve.Store.Tables.{Ledger, empty_ledger}
use lean_evolve.Store.Growth.{history}
use lean_evolve.Store.Command.{Command}
use lean_evolve.Store.Objects.{NewObject}
use lean_evolve.Store.Block.{run_steps-Uses}
use lean_evolve.Store.Transaction.{Step, run_steps, write}
use lean_evolve.Store.Soundness.{start, next}
use lean_evolve.Events.Chain.{IsChain}
use lean_evolve.Integrity.{check_chain, check_authority, check_truth_invariants}
use lean_evolve.Integrity.History.{check_chain-IsChain}
use lean_evolve.Integrity.Reached.{check_authority-Reachable}
use lean_evolve.Store.Session.{
  insert_event, advance, prepared, check_evidence, append_event, existing_event, record_event,
}
use lean_evolve.Store.Objects.{check_object, insert_object, create_object}
use lean_evolve.Store.Block.{run_steps-Uses}
use lean_evolve.Store.Transaction.{attempt, perform, begin, finish}
use lean_evolve.Store.Tables.{
  clashes, place_event, place_object, object_from_row, object_exists, object, head, event_by_key,
}
use lean_evolve.Store.Exec.{pure, raise, lift, gets, modify, ◌>>=◌}
use lean_evolve.Vocabulary.Validate.{
  require_object_kind, require_event_action, require_actor, authorize, validate_event_payload,
}
use lean_evolve.Events.{
  validate_identifier, compute_hash, with_hash, json_safe, prepare, event_row, event_from_row,
  hashed_core, digest,
}
use lean_evolve.Value.{items_eq, fields_eq}

abbrev properties : Fields
properties = entry "formal_system" (str "lean4") (
    entry "declaration" (str "d")
      (entry "proposition_sha256" (str "p") (entry "environment_identity" (str "e") empty)))

abbrev goal : NewObject
goal = record {
  id = "goal";
  kind = "formal_claim";
  canonical_name = "goal";
  content_format = "lean";
  content = "";
  properties = properties;
  occurred_at = none;
}

abbrev payload : Fields
payload = entry "kind" (str "formal_claim") (
    entry "canonical_name" (str "goal")
      (entry "content_format" (str "lean") (entry "properties" (dict properties) empty)))

-- What the first event commits to.
abbrev core : Value
core = dict (
    entry "format" (str "leanevolve-ledger-event-v1") (
      entry "id" (int false 1) (
        entry "occurred_at" (str "now") (
          entry "campaign_id" null (
            entry "epoch_id" null (
              entry "turn_id" null (
                entry "actor_class" (str "human_researcher") (
                  entry "actor_id" (str "person") (
                    entry "action" (str "object_created") (
                      entry "subject_type" (str "object") (
                        entry "subject_id" (str "goal") (
                          entry "payload" (dict payload) (
                            entry "evidence_object_id" null
                              (entry "previous_event_hash" (str genesis_hash) empty))))))))))))))

-- The host has a text for these three values.
abbrev dump : Value → Option String
dump v =
    if value_eq v (dict properties)
    then some "properties"
    else if value_eq v (dict payload)
    then some "payload"
    else if value_eq v core
    then some "core"
    else none

abbrev load : String → Value
load t =
    if t == "properties" then dict properties else if t == "payload" then dict payload else core

abbrev host : Host
host = record { dumps = dump; loads = load; sha256 = λ t. t }

load-dump : (v : Value) (t : String) → dump v ≡ some t → load t ≡ v
load-dump v t h = elim (Bool-cases (value_eq v (dict properties))) [
  | inl e ↦ sym (ap load (some_inj (rw e at h))) ∙ sym (value_eq_sound v (dict properties) e)
  | inr n ↦ elim (Bool-cases (value_eq v (dict payload))) [
    | inl e ↦ sym (ap load (some_inj (rw (n, e) at h))) ∙ sym (value_eq_sound v (dict payload) e)
    | inr m ↦ elim (Bool-cases (value_eq v core)) [
      | inl e ↦ sym (ap load (some_inj (rw (n, m, e) at h))) ∙ sym (value_eq_sound v core e)
      | inr k ↦ absurd (ground (arith, rw (n, m, k) at h))
    ]
  ]
]

host-KeepsFields : KeepsFields host
host-KeepsFields d t h = (d, load-dump (dict d) t h, λ k. refl)

abbrev person : Envelope
person = record {
  actor_class = "human_researcher";
  actor_id = "person";
  campaign_id = none;
  epoch_id = none;
  turn_id = none;
}

abbrev clock : ℕ → String
clock n = "now"

abbrev steps : List Step
steps = (false, Command.create_object goal) ∷ []

abbrev goal_ledger : Ledger
goal_ledger = (write host person clock (run_steps host steps) empty_ledger).1

-- The ledger has its event.
goal_ledger-length : length goal_ledger.events ≡ 1
unfolding write run_steps value_eq insert_event advance prepared check_evidence append_event
    existing_event record_event check_object insert_object create_object attempt perform begin
    finish clashes place_event place_object object_from_row object_exists object head event_by_key
    pure raise lift gets modify ◌>>=◌ require_object_kind require_event_action require_actor
    authorize validate_event_payload validate_identifier compute_hash with_hash json_safe prepare
    event_row event_from_row hashed_core digest items_eq fields_eq
goal_ledger-length = refl

check_authority-Reachable_example :
    (check_chain host goal_ledger ≡ some [])
    × (check_authority host goal_ledger ≡ [])
    × (check_truth_invariants host goal_ledger ≡ [])
check_authority-Reachable_example =
    check_authority-Reachable host host-KeepsFields goal_ledger
      (next person clock _ (start refl) (run_steps-Uses host steps) refl)

check_chain-IsChain_example :
    (check_chain host goal_ledger ≡ some [] → IsChain host (history host goal_ledger))
    × (IsChain host (history host goal_ledger) → check_chain host goal_ledger ≡ some [])
check_chain-IsChain_example = check_chain-IsChain host goal_ledger
