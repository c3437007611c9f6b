-- ===== src/Integrity.antt =====
-- ledger/integrity.py: the checks of the history, of the objects and of the connections. A check that
-- calls `json.dumps` on what the ledger holds gives `none` where that raises.
pub mod History
pub mod Accepts
pub mod Reached
use lean_evolve.Prelude.{
  ℕ, ◌+◌, String, Bool, true, false, not, ◌&&◌, ◌||◌, Option, none, some, List, [], ◌∷◌, ◌++◌, mem,
  find, maybe, ◌==◌, nat_eq, is_some, if◌then◌else◌, Except, ok, err,
}
use lean_evolve.Value.{Value, str, get, Host}
use lean_evolve.Vocabulary.Terms.{ObjectKind, truth_bearing_actions}
use lean_evolve.Vocabulary.Relations.{Relation}
use lean_evolve.Vocabulary.Validate.{
  VocabularyError, Checked, missing, nonempty, authorize, require_object_kind, require_relation,
  validate_connection, validate_event_payload,
}
use lean_evolve.Events.{Event, genesis_hash, compute_hash}
use lean_evolve.Store.Tables.{
  Ledger, ObjectRecord, ConnectionRecord, fields_of, object, objects, connections, events_of,
}
use lean_evolve.Derive.{property_is}

-- The findings of these checks, which all have the severity ERROR, with the id of their subject.
pub data Finding : Type 0 where
  event_id_gap : ℕ → ℕ → Finding
  chain_break : ℕ → Finding
  event_hash_mismatch : ℕ → Finding
  unauthorized_event : ℕ → VocabularyError → Finding
  invalid_payload : ℕ → VocabularyError → Finding
  missing_evidence : ℕ → String → Finding
  unknown_kind : String → VocabularyError → Finding
  missing_properties : String → List String → Finding
  artifact_identity_mismatch : String → Finding
  unknown_relation : ConnectionRecord → Finding
  dangling_connection : ConnectionRecord → Finding
  invalid_connection : ConnectionRecord → VocabularyError → Finding
  truth_from_wrong_actor : ℕ → Finding
  refutation_without_kernel_trust : ConnectionRecord → Finding

-- `if test: findings.append(finding)`
abbrev pub report_if : Bool → Finding → List Finding
report_if true f = f ∷ []
report_if false f = []

-- `except VocabularyError as error: findings.append(…)`
abbrev pub report_error : {A : Type 0} → Checked A → (VocabularyError → Finding) → List Finding
report_error (ok a) f = []
report_error (err e) f = f e ∷ []

-- The variables of the loop of `_check_chain`.
pub record Walk : Type 0 where
  pub expected_id : ℕ
  pub previous_hash : String
  pub findings : List Finding

abbrev pub walk_start : Walk
walk_start = record { expected_id = 1; previous_hash = genesis_hash; findings = [] }

-- The findings of all items, in their order.
unfoldable pub gather {ℓ} : {A : Type ℓ} → (A → List Finding) → List A → List Finding
gather f [] = []
gather f (x ∷ xs) = f x ++ gather f xs

-- `text.endswith(suffix)`
ends_with : String → String → Bool
ends_with String.[] suffix = suffix == ""
ends_with (String.◌∷◌ c s) suffix = (String.◌∷◌ c s) == suffix || ends_with s suffix

-- The body of the loop, once the digest is computed.
unfoldable pub inspect : Walk → Event → String → Walk
inspect w e recomputed = record {
  expected_id = (if not (nat_eq e.id w.expected_id) then e.id else w.expected_id) + 1;
  previous_hash = e.event_hash;
  findings =
      w.findings
      ++ (report_if (not (nat_eq e.id w.expected_id)) (event_id_gap e.id w.expected_id)
          ++ (report_if (not (e.previous_event_hash == w.previous_hash)) (chain_break e.id)
              ++ report_if (not (e.event_hash == recomputed)) (event_hash_mismatch e.id)));
}

-- `not isinstance(digest, str) or not record.id.endswith(digest)`
abbrev misnamed : String → Option Value → Bool
misnamed id (some (str digest)) = not (ends_with id digest)
misnamed id v = true

abbrev declared_findings : ObjectRecord → Checked ObjectKind → List Finding
declared_findings o (err e) = unknown_kind o.id e ∷ []
declared_findings o (ok declared) =
    let lacking = missing declared.required_properties (fields_of o.properties) in
    report_if (nonempty lacking) (missing_properties o.id lacking)
    ++ report_if (o.kind == "artifact" && misnamed o.id (get "sha256" (fields_of o.properties)))
        (artifact_identity_mismatch o.id)

unfoldable pub object_findings : ObjectRecord → List Finding
unfolding ends_with
object_findings o = declared_findings o (require_object_kind o.kind)

abbrev endpoint_findings : ConnectionRecord → Option String → Option String → List Finding
endpoint_findings c (some from_kind) (some to_kind) =
    report_error (validate_connection c.relation from_kind to_kind (fields_of c.properties))
      (invalid_connection c)
endpoint_findings c _ _ = dangling_connection c ∷ []

unfoldable pub truth_findings : Event → List Finding
truth_findings e =
    report_if
      (mem e.action truth_bearing_actions && not (e.actor_class == "authoritative_evaluator"))
      (truth_from_wrong_actor e.id)

unfoldable pub trust_findings : ConnectionRecord → List Finding
trust_findings c =
    report_if (not (property_is "trust_level" "kernel" c)) (refutation_without_kernel_trust c)

module _ (host : Host) where
  unfoldable pub walk : Walk → List Event → Option Walk
  walk w [] = some w
  walk w (e ∷ es) = maybe none (λ h. walk (inspect w e h) es) (compute_hash host e)

  -- `_check_chain`
  unfoldable pub check_chain : Ledger → Option (List Finding)
  check_chain l =
      maybe none (λ (w : Walk). some w.findings) (walk walk_start (events_of host l none none))

  -- The evidence of an event is an object.
  abbrev pub evidence_findings : Ledger → ℕ → Option String → List Finding
  evidence_findings l id none = []
  evidence_findings l id (some evidence) =
      report_if (not (is_some (object host l evidence))) (missing_evidence id evidence)

  unfoldable pub event_findings : Ledger → Event → List Finding
  event_findings l e =
      report_error (authorize e.actor_class e.action) (unauthorized_event e.id)
      ++ (report_error (validate_event_payload e.action (fields_of e.payload) e.evidence_object_id)
            (invalid_payload e.id)
          ++ evidence_findings l e.id e.evidence_object_id)

  -- `_check_authority`
  unfoldable pub check_authority : Ledger → List Finding
  check_authority l = gather (event_findings l) (events_of host l none none)

  -- `_check_objects`
  unfoldable pub check_objects : Ledger → List Finding
  check_objects l = gather object_findings (objects host l none)

  -- `kinds[id]`
  abbrev kind_of : Ledger → String → Option String
  kind_of l id =
      maybe none (λ (o : ObjectRecord). some o.kind)
        (find (λ (o : ObjectRecord). o.id == id) (objects host l none))

  abbrev relation_findings : Ledger → ConnectionRecord → Checked Relation → List Finding
  relation_findings l c (err e) = unknown_relation c ∷ []
  relation_findings l c (ok declared) =
      endpoint_findings c (kind_of l c.from_id) (kind_of l c.to_id)

  unfoldable pub connection_findings : Ledger → ConnectionRecord → List Finding
  connection_findings l c = relation_findings l c (require_relation c.relation)

  -- `_check_connections`
  unfoldable pub check_connections : Ledger → List Finding
  check_connections l = gather (connection_findings l) (connections host l none none none true)

  -- `_check_truth_invariants`
  unfoldable pub check_truth_invariants : Ledger → List Finding
  check_truth_invariants l =
      gather truth_findings (events_of host l none none)
      ++ gather trust_findings (connections host l none none (some "refutes") false)
