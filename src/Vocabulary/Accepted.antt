-- ===== src/Vocabulary/Accepted.antt =====
-- `validate_connection` of ledger/vocabulary.py, on the kinds of the two ends and the properties of an
-- edge, and what it stands for.
use lean_evolve.Prelude.{
  ℕ, some_inj, String, ◌≡◌, ap, subst, Bool, true, false, not, ◌&&◌, Option, none, some, List, mem,
  Member, Member-mem, ◌==◌, ok, raise_if, raise_if-eq-ok, raise_if-not-eq-ok, >>=-eq-ok, arith,
  eq_iff, map,
}
use lean_evolve.Value.{Value, str, Fields, get}
use lean_evolve.Vocabulary.Terms.{
  ObjectKind, trust_levels, formalization_relationships, verification_order,
}
use lean_evolve.Vocabulary.Relations.{Relation}
use lean_evolve.Vocabulary.Supplied.{missing_none, nonempty_nil, text_in-Member}
use lean_evolve.Vocabulary.Validate.{
  require_relation, require_object_kind, source_refused, target_refused, requires_properties,
  unknown_trust_level, missing, nonempty, text_in, is_text, check_trust, check_formalization,
  check_level, validate_connection,
}

-- A text from a list.
abbrev pub IsFrom : List String → Value → Type 0
IsFrom names v = (s : String) × (v ≡ str s) × Member s names

-- The names of VERIFICATION_ORDER.
abbrev pub ladder : List String
ladder = map (λ (e : String × ℕ). e.0) verification_order

-- An edge joins objects of declared kinds, which its relation takes, has the properties that the
-- relation requires, and has known values where it has a trust level (for a relation that refutes:
-- kernel), a formalization relationship or a verification level.
pub record IsAccepted (relation from_kind to_kind : String) (d : Fields) : Type 0 where
  pub declared : Relation
  pub found : require_relation relation ≡ ok declared
  pub from_known : (k : ObjectKind) × (require_object_kind from_kind ≡ ok k)
  pub to_known : (k : ObjectKind) × (require_object_kind to_kind ≡ ok k)
  pub from_listed : Member from_kind declared.from_kinds
  pub to_listed : Member to_kind declared.to_kinds
  pub complete :
      (field : String)
      → Member field declared.required_properties
      → (v : Value) × (get field d ≡ some v)
  pub trusted : (v : Value) → get "trust_level" d ≡ some v → IsFrom trust_levels v
  pub refuting :
      (v : Value)
      → get "trust_level" d ≡ some v
      → declared.status_effect ≡ "refutes_target"
      → v ≡ str "kernel"
  pub mapped :
      (v : Value)
      → get "formalization_relationship" d ≡ some v
      → IsFrom formalization_relationships v
  pub levelled : (v : Value) → get "verification_level" d ≡ some v → IsFrom ladder v

is_text-kernel : (v : Value) → is_text "kernel" v ≡ true → v ≡ str "kernel"
is_text-kernel (str s) h = ap str ((eq_iff s "kernel").0 h)
is_text-kernel _ h = absurd (ground arith)

check_trust-level :
    (r : Relation) (o : Option Value) (v : Value)
    → check_trust r o ≡ ok tt
    → o ≡ some v
    → IsFrom trust_levels v × (r.status_effect ≡ "refutes_target" → v ≡ str "kernel")
unfolding check_trust
check_trust-level r none v h e = absurd (ground (arith, e))
check_trust-level r (some w) v h e =
    let (_, known, kernel) =
      >>=-eq-ok (raise_if (not (text_in trust_levels w)) (unknown_trust_level w)) _ h in
    let gate =
      raise_if-eq-ok (r.status_effect == "refutes_target" && not (is_text "kernel" w)) _ kernel in
    subst
      (λ (x : Value).
        IsFrom trust_levels x × (r.status_effect ≡ "refutes_target" → x ≡ str "kernel"))
      (some_inj e)
      (
        text_in-Member trust_levels w (raise_if-not-eq-ok _ _ known),
        λ refutes.
            is_text-kernel w
              (kernel_if _ _ ((eq_iff r.status_effect "refutes_target").1 refutes) gate),
      )
  where
    kernel_if : (a b : Bool) → a ≡ true → (a && not b) ≡ false → b ≡ true
    kernel_if a b h k = ground (arith, h, k)

check_formalization-value :
    (o : Option Value) (v : Value)
    → check_formalization o ≡ ok tt
    → o ≡ some v
    → IsFrom formalization_relationships v
unfolding check_formalization
check_formalization-value none v h e = absurd (ground (arith, e))
check_formalization-value (some w) v h e =
    subst (IsFrom formalization_relationships) (some_inj e)
      (text_in-Member formalization_relationships w (raise_if-not-eq-ok _ _ h))

check_level-value :
    (o : Option Value) (v : Value) → check_level o ≡ ok tt → o ≡ some v → IsFrom ladder v
unfolding check_level
check_level-value none v h e = absurd (ground (arith, e))
check_level-value (some w) v h e =
    subst (IsFrom ladder) (some_inj e) (text_in-Member ladder w (raise_if-not-eq-ok _ _ h))

pub validate_connection-IsAccepted :
    (relation from_kind to_kind : String) (d : Fields) {r : Relation}
    → validate_connection relation from_kind to_kind d ≡ ok r
    → IsAccepted relation from_kind to_kind d
unfolding validate_connection
validate_connection-IsAccepted relation from_kind to_kind d h =
    let (declared, p, h1) = >>=-eq-ok (require_relation relation) _ h in
    let (fk, p2, h2) = >>=-eq-ok (require_object_kind from_kind) _ h1 in
    let (tk, p3, h3) = >>=-eq-ok (require_object_kind to_kind) _ h2 in
    let (u4, p4, h4) =
      >>=-eq-ok
        (raise_if (not (mem from_kind declared.from_kinds)) (source_refused relation from_kind)) _
        h3 in
    let (u5, p5, h5) =
      >>=-eq-ok (raise_if (not (mem to_kind declared.to_kinds)) (target_refused relation to_kind)) _
        h4 in
    let lacking = missing declared.required_properties d in
    let (u6, p6, h6) =
      >>=-eq-ok (raise_if (nonempty lacking) (requires_properties relation lacking)) _ h5 in
    let (u7, p7, h7) = >>=-eq-ok (check_trust declared (get "trust_level" d)) _ h6 in
    let (u8, p8, h8) = >>=-eq-ok (check_formalization (get "formalization_relationship" d)) _ h7 in
    let (u9, p9, h9) = >>=-eq-ok (check_level (get "verification_level" d)) _ h8 in
    record {
      declared = declared;
      found = p;
      from_known = (fk, p2);
      to_known = (tk, p3);
      from_listed = Member-mem from_kind declared.from_kinds (raise_if-not-eq-ok _ _ p4);
      to_listed = Member-mem to_kind declared.to_kinds (raise_if-not-eq-ok _ _ p5);
      complete =
          missing_none declared.required_properties d
            (nonempty_nil lacking (raise_if-eq-ok _ _ p6));
      trusted = λ v e. (check_trust-level declared _ v p7 e).0;
      refuting = λ v e. (check_trust-level declared _ v p7 e).1;
      mapped = λ v. check_formalization-value _ v p8;
      levelled = λ v. check_level-value _ v p9;
    }
