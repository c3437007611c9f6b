-- ===== src/Vocabulary/Refutation.antt =====
-- The gate of a refutation (ledger/vocabulary.py `validate_connection`, ledger/SEMANTICS.md,
-- "Refutation needs a bridge").
use lean_evolve.Prelude.{
  String, ◌≡◌, refl, sym, ap, subst, ◌∙◌, inl, inr, Member, mem-Member, true, some, [], ◌∷◌, mem,
  ok, ok-injective,
}
use lean_evolve.Value.{str, Fields, get}
use lean_evolve.Vocabulary.Relations.{Relation, any_claimlike}
use lean_evolve.Vocabulary.Validate.{require_relation, validate_connection}
use lean_evolve.Vocabulary.Accepted.{IsAccepted, validate_connection-IsAccepted}

abbrev refutes_relation : Relation
refutes_relation = record {
  name = "refutes";
  from_kinds = "formal_claim" ∷ [];
  to_kinds = any_claimlike;
  status_effect = "refutes_target";
  required_properties = "trust_level" ∷ [];
  requires_assembly_source = true;
}

require_relation-refutes : require_relation "refutes" ≡ ok refutes_relation
unfolding require_relation
require_relation-refutes = refl

single : {s : String} (k : String) → Member k (s ∷ []) → k ≡ s
single k (inl e) = e
single k (inr m) = absurd m

pub IsAccepted-refutes :
    (from_kind to_kind : String) (d : Fields)
    → IsAccepted "refutes" from_kind to_kind d
    → (from_kind ≡ "formal_claim")
      × (mem to_kind any_claimlike ≡ true)
      × (get "trust_level" d ≡ some (str "kernel"))
IsAccepted-refutes from_kind to_kind d a =
    let e : refutes_relation ≡ a.declared = ok-injective (sym require_relation-refutes ∙ a.found) in
    let from_there =
      subst (λ (r : Relation). Member from_kind r.from_kinds) (sym e) a.from_listed in
    let to_there = subst (λ (r : Relation). Member to_kind r.to_kinds) (sym e) a.to_listed in
    let (v, there) =
      a.complete "trust_level"
        (subst (λ (r : Relation). Member "trust_level" r.required_properties) e (inl refl)) in
    (
      single from_kind from_there,
      mem-Member to_kind any_claimlike to_there,
      there ∙ ap some (a.refuting v there (ap (λ (r : Relation). r.status_effect) (sym e))),
    )

-- An accepted `refutes` edge starts at a formal claim, ends at a claim, a counterexample or a
-- computation, and carries the trust level "kernel": no weaker evidence passes.
pub validate_connection-refutes :
    (from_kind to_kind : String) (d : Fields) {r : Relation}
    → validate_connection "refutes" from_kind to_kind d ≡ ok r
    → (from_kind ≡ "formal_claim")
      × (mem to_kind any_claimlike ≡ true)
      × (get "trust_level" d ≡ some (str "kernel"))
validate_connection-refutes from_kind to_kind d h =
    IsAccepted-refutes from_kind to_kind d
      (validate_connection-IsAccepted "refutes" from_kind to_kind d h)
