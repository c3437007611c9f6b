-- ===== src/Tests/Vocabulary.antt =====
-- The theorems on the vocabulary and on the derived dimensions, each at an input that meets its
-- conditions.
use lean_evolve.Prelude.{
  String, ◌≡◌, ◌↔◌, ◌≢◌, refl, Bool, true, false, none, some, List, [], ◌∷◌, ◌++◌, inl, inr, mem,
  All, Except, ok, err, arith, is_some,
}
use lean_evolve.Value.{null, str, Fields, empty, entry, get}
use lean_evolve.Vocabulary.Relations.{any_claimlike}
use lean_evolve.Vocabulary.Validate.{
  authorize, require_state, order_of, validate_connection, dominant_verification_level,
  require_event_action, validate_event_payload, require_relation, require_object_kind,
}
use lean_evolve.Vocabulary.Authority.{evaluator_actions-authorize}
use lean_evolve.Vocabulary.Actions.{EventAction}
use lean_evolve.Vocabulary.Contracts.{IsContracted, validate_event_payload-IsContracted}
use lean_evolve.Vocabulary.Refutation.{validate_connection-refutes}
use lean_evolve.Vocabulary.Levels.{IsDominant, dominant_verification_level-IsDominant}
use lean_evolve.Vocabulary.Dimensions.{require_state-disjoint}
use lean_evolve.Events.{Event}
use lean_evolve.Derive.{
  operational, is_proved, verification, lifecycle, operational_events, table_get,
}
use lean_evolve.Derive.Dimension.{check_reports-operational}

abbrev is_ok : {E A : Type 0} → Except E A → Bool
is_ok (ok a) = true
is_ok (err x) = false

result : {E A : Type 0} (r : Except E A) → is_ok r ≡ true → (a : A) × (r ≡ ok a)
result (ok a) h = (a, refl)
result (err x) h = absurd (ground arith)

abbrev kernel_trust : Fields
kernel_trust = entry "trust_level" (str "kernel") empty

abbrev certificate_payload : Fields
certificate_payload = entry "declaration" (str "d") (
    entry "proposition_sha256" (str "p") (
      entry "toolchain" (str "t")
        (entry "evaluator_version" (str "v") (entry "axiom_policy" null empty))))

abbrev levels : List String
levels = "elaboration_failed" ∷ "promotion_audited" ∷ "scratch_checked" ∷ []

accepted :
    (is_ok (validate_connection "refutes" "formal_claim" "formal_claim" kernel_trust) ≡ true)
    × (is_ok (validate_event_payload "kernel_certified" certificate_payload (some "receipt"))
        ≡ true)
    × (is_ok (require_state "truth" "refuted") ≡ true)
    × (authorize "authoritative_evaluator" "kernel_certified" ≡ ok tt)
unfolding validate_connection validate_event_payload require_state authorize require_relation
    require_object_kind require_event_action
accepted = (refl, refl, refl, refl)

ordered : All (λ l. order_of l ≢ none) levels
unfolding order_of
ordered = (λ h. cc h, (λ h. cc h, (λ h. cc h, tt)))

abbrev timed_out : Event
timed_out = record {
  id = 2;
  occurred_at = "";
  recorded_at = "";
  actor_class = "authoritative_evaluator";
  actor_id = "tool:evaluator";
  action = "check_timed_out";
  subject_type = "object";
  subject_id = "claim";
  payload = null;
  evidence_object_id = none;
  campaign_id = none;
  epoch_id = none;
  turn_id = none;
  idempotency_key = none;
  previous_event_hash = "";
  event_hash = "";
}

abbrev certified : Event
certified = record timed_out { action = "kernel_certified" }

evaluator_actions-authorize_example :
    ◌≡◌ {A = String} "authoritative_evaluator" "authoritative_evaluator"
evaluator_actions-authorize_example =
    evaluator_actions-authorize "authoritative_evaluator" "kernel_certified" (inl refl) accepted.3

validate_connection-refutes_example :
    (◌≡◌ {A = String} "formal_claim" "formal_claim")
    × (mem "formal_claim" any_claimlike ≡ true)
    × (get "trust_level" kernel_trust ≡ some (str "kernel"))
validate_connection-refutes_example =
    validate_connection-refutes "formal_claim" "formal_claim" kernel_trust
      (result (validate_connection "refutes" "formal_claim" "formal_claim" kernel_trust)
        accepted.0).1

abbrev certifying : EventAction
certifying =
    (result (validate_event_payload "kernel_certified" certificate_payload (some "receipt"))
      accepted.1).0

validate_event_payload-IsContracted_example :
    (validate_event_payload "kernel_certified" certificate_payload (some "receipt") ≡ ok certifying)
    ↔ IsContracted "kernel_certified" certificate_payload (some "receipt") certifying
validate_event_payload-IsContracted_example =
    validate_event_payload-IsContracted "kernel_certified" certificate_payload (some "receipt")
      certifying

dominant_verification_level-IsDominant_example :
    (r : String) × (dominant_verification_level levels ≡ ok r) × IsDominant "untested" levels r
dominant_verification_level-IsDominant_example =
    dominant_verification_level-IsDominant levels ordered

require_state-disjoint_example : ◌≡◌ {A = String} "truth" "truth"
require_state-disjoint_example =
    require_state-disjoint "truth" "truth" "refuted"
      (result (require_state "truth" "refuted") accepted.2).1
      (result (require_state "truth" "refuted") accepted.2).1

check_reports-operational_example :
    (is_some (operational ((certified ∷ []) ++ timed_out ∷ [])) ≡ true)
    × (operational ((certified ∷ []) ++ timed_out ∷ [])
        ≡ table_get timed_out.action operational_events)
    × (is_proved ((certified ∷ []) ++ timed_out ∷ []) ≡ is_proved (certified ∷ []))
    × (verification ((certified ∷ []) ++ timed_out ∷ []) ≡ verification (certified ∷ []))
    × (lifecycle ((certified ∷ []) ++ timed_out ∷ []) ≡ lifecycle (certified ∷ []))
check_reports-operational_example =
    check_reports-operational (certified ∷ []) timed_out (inr (inr (inr (inr (inl refl)))))
