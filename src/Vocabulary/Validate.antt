-- ===== src/Vocabulary/Validate.antt =====
-- ledger/vocabulary.py, the validation functions. An error is a constructor for each message, with
-- what the message shows.
use lean_evolve.Prelude.{
  ℕ, String, Bool, true, false, not, ◌&&◌, Option, none, some, List, [], ◌∷◌, ◌++◌, find, map, mem,
  select, ◌==◌, ltb, Except, ok, err, ◌>>=◌, ◌>>◌, raise_if, maybe, if◌then◌else◌,
}
use lean_evolve.Value.{Value, str, Fields, get, has, keys}
use lean_evolve.Vocabulary.Terms.{
  verification_order, state_dimensions, ObjectKind, object_kinds, formalization_relationships,
  trust_levels,
}
use lean_evolve.Vocabulary.Relations.{Relation, relations}
use lean_evolve.Vocabulary.Actions.{actors, EventAction, event_actions}

pub data VocabularyError : Type 0 where
  unknown_object_kind : String → VocabularyError
  unknown_relation : String → VocabularyError
  unknown_event_action : String → VocabularyError
  unknown_actor : String → VocabularyError
  unknown_dimension : String → VocabularyError
  unknown_state : String → String → VocabularyError
  may_not_emit : String → String → VocabularyError
  source_refused : String → String → VocabularyError
  target_refused : String → String → VocabularyError
  requires_properties : String → List String → VocabularyError
  unknown_trust_level : Value → VocabularyError
  requires_kernel_trust : Value → VocabularyError
  unknown_formalization : Value → VocabularyError
  unknown_level : Value → VocabularyError
  requires_payload : String → List String → VocabularyError
  refuses_payload : String → List String → VocabularyError
  requires_evidence_artifact : String → VocabularyError

abbrev pub Checked : Type 0 → Type 0
Checked A = Except VocabularyError A

-- `table[name]`, or the error that the name is unknown
abbrev pub required : {A : Type 0} → VocabularyError → Option A → Checked A
required e none = err e
required e (some a) = ok a

unfoldable pub require_object_kind : String → Checked ObjectKind
unfolding object_kinds
require_object_kind kind =
    required (unknown_object_kind kind) (find (λ k. k.name == kind) object_kinds)

unfoldable pub require_relation : String → Checked Relation
unfolding relations
require_relation relation =
    required (unknown_relation relation) (find (λ r. r.name == relation) relations)

unfoldable pub require_event_action : String → Checked EventAction
unfolding event_actions
require_event_action action =
    required (unknown_event_action action) (find (λ a. a.name == action) event_actions)

unfoldable pub require_actor : String → Checked String
require_actor actor = if mem actor actors then ok actor else err (unknown_actor actor)

-- `STATE_DIMENSIONS.get(dimension)`
abbrev pub states_of : String → List (String × List String) → Option (List String)
states_of d [] = none
states_of d ((name, values) ∷ rest) = if d == name then some values else states_of d rest

unfoldable pub require_state : String → String → Checked String
require_state dimension value = do
  allowed ← required (unknown_dimension dimension) (states_of dimension state_dimensions)
  raise_if (not (mem value allowed)) (unknown_state dimension value)
  ok value

-- `authorize(actor, action)`
unfoldable pub authorize : String → String → Checked (Unit {0})
unfolding require_actor
authorize actor action = do
  require_actor actor
  declared ← require_event_action action
  raise_if (not (mem actor declared.actors)) (may_not_emit actor action)

-- `[name for name in required if name not in supplied]`
abbrev pub missing : List String → Fields → List String
missing names supplied = select (λ name. not (has name supplied)) names

abbrev pub nonempty : List String → Bool
nonempty [] = false
nonempty (x ∷ xs) = true

-- `value in names`, for a value that need not be a text
abbrev pub text_in : List String → Value → Bool
text_in names (str s) = mem s names
text_in names v = false

abbrev pub is_text : String → Value → Bool
is_text s (str t) = t == s
is_text s v = false

-- `VERIFICATION_ORDER.get(level)`
abbrev pub order_in : String → List (String × ℕ) → Option ℕ
order_in level [] = none
order_in level ((name, n) ∷ rest) = if level == name then some n else order_in level rest

abbrev level_names : List String
level_names = map (λ e. e.0) verification_order

-- The three optional properties that have a controlled value.
unfoldable pub check_trust : Relation → Option Value → Checked (Unit {0})
check_trust declared none = ok tt
check_trust declared (some level) = do
  raise_if (not (text_in trust_levels level)) (unknown_trust_level level)
  raise_if (declared.status_effect == "refutes_target" && not (is_text "kernel" level))
      (requires_kernel_trust level)

unfoldable pub check_formalization : Option Value → Checked (Unit {0})
check_formalization none = ok tt
check_formalization (some mapping) =
    raise_if (not (text_in formalization_relationships mapping)) (unknown_formalization mapping)

unfoldable pub check_level : Option Value → Checked (Unit {0})
check_level none = ok tt
check_level (some level) = raise_if (not (text_in level_names level)) (unknown_level level)

unfoldable pub validate_connection : String → String → String → Fields → Checked Relation
unfolding check_trust check_formalization check_level
validate_connection relation from_kind to_kind supplied = do
  declared ← require_relation relation
  require_object_kind from_kind
  require_object_kind to_kind
  raise_if (not (mem from_kind declared.from_kinds)) (source_refused relation from_kind)
  raise_if (not (mem to_kind declared.to_kinds)) (target_refused relation to_kind)
  let lacking = missing declared.required_properties supplied
  raise_if (nonempty lacking) (requires_properties relation lacking)
  check_trust declared (get "trust_level" supplied)
  check_formalization (get "formalization_relationship" supplied)
  check_level (get "verification_level" supplied)
  ok declared

-- Whether an optional identifier is truthy: there, and not the empty text.
abbrev pub truthy : Option String → Bool
truthy none = false
truthy (some s) = not (s == "")

-- `set(supplied) - allowed`; the message lists it sorted, here it keeps the payload's order.
abbrev pub unexpected : List String → Fields → List String
unexpected allowed supplied = select (λ name. not (mem name allowed)) (keys supplied)

unfoldable pub validate_event_payload : String → Fields → Option String → Checked EventAction
validate_event_payload action supplied evidence_object_id = do
  declared ← require_event_action action
  let lacking = missing declared.required_payload supplied
  raise_if (nonempty lacking) (requires_payload action lacking)
  let refused = unexpected (declared.required_payload ++ declared.optional_payload) supplied
  raise_if (nonempty refused) (refuses_payload action refused)
  raise_if (declared.requires_evidence && not (truthy evidence_object_id))
      (requires_evidence_artifact action)
  ok declared

-- `VERIFICATION_ORDER[level]`, where the level is known
unfoldable pub order_of : String → Option ℕ
order_of level = order_in level verification_order

-- The place of a level on the ladder.
unfoldable pub rank : String → ℕ
unfolding order_of
rank level = maybe 0 (λ n. n) (order_of level)

-- The update of `best` in the loop.
unfoldable pub better : String → String → ℕ → String
better best level n = if ltb (rank best) n then level else best

-- The loop of `dominant_verification_level`, from the best level so far.
unfoldable pub dominant_from : String → List String → Checked String
dominant_from best [] = ok best
dominant_from best (level ∷ levels) = elim (order_of level) [
  | none ↦ err (unknown_level (str level))
  | some n ↦ dominant_from (better best level n) levels
]

unfoldable pub dominant_verification_level : List String → Checked String
unfolding dominant_from
dominant_verification_level levels = dominant_from "untested" levels
