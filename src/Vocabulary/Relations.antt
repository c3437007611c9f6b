-- ===== src/Vocabulary/Relations.antt =====
-- ledger/vocabulary.py, the relations between objects and what each accepts.
use lean_evolve.Prelude.{String, Bool, true, false, List, [], ◌∷◌, ◌++◌}
use lean_evolve.Vocabulary.Terms.{scope_kinds, object_kind_names}

pub record Relation : Type 0 where
  pub name : String
  pub from_kinds : List String
  pub to_kinds : List String
  pub status_effect : String
  pub required_properties : List String
  pub requires_assembly_source : Bool

abbrev pub claim_kinds : List String
claim_kinds = "formal_claim" ∷ "research_claim" ∷ []

abbrev pub evidence_kinds : List String
evidence_kinds = "formal_claim" ∷ "counterexample" ∷ "computation" ∷ "artifact" ∷ []

abbrev pub any_claimlike : List String
any_claimlike = claim_kinds ++ ("counterexample" ∷ "computation" ∷ "source_claim" ∷ [])

unfoldable pub mathematical_relations : List Relation
mathematical_relations =
    record {
      name = "depends_on";
      from_kinds = claim_kinds;
      to_kinds = claim_kinds;
      status_effect = "none";
      required_properties = [];
      requires_assembly_source = false;
    }
    ∷ record {
      name = "decomposes_into";
      from_kinds = claim_kinds;
      to_kinds = claim_kinds;
      status_effect = "none";
      required_properties = [];
      requires_assembly_source = false;
    }
    ∷ record {
      name = "supports";
      from_kinds = evidence_kinds ++ ("source_claim" ∷ []);
      to_kinds = claim_kinds;
      status_effect = "none";
      required_properties = "trust_level" ∷ [];
      requires_assembly_source = false;
    }
    ∷ record {
      name = "refutes";
      from_kinds = "formal_claim" ∷ [];
      to_kinds = any_claimlike;
      status_effect = "refutes_target";
      required_properties = "trust_level" ∷ [];
      requires_assembly_source = true;
    }
    ∷ record {
      name = "supersedes";
      from_kinds = any_claimlike;
      to_kinds = any_claimlike;
      status_effect = "supersedes_target";
      required_properties = "reason" ∷ [];
      requires_assembly_source = false;
    }
    ∷ record {
      name = "advances";
      from_kinds = any_claimlike;
      to_kinds = claim_kinds;
      status_effect = "none";
      required_properties = [];
      requires_assembly_source = false;
    }
    ∷ record {
      name = "equivalent_to";
      from_kinds = claim_kinds;
      to_kinds = claim_kinds;
      status_effect = "none";
      required_properties = "changed_assumptions" ∷ [];
      requires_assembly_source = false;
    }
    ∷ record {
      name = "specializes";
      from_kinds = claim_kinds;
      to_kinds = claim_kinds;
      status_effect = "none";
      required_properties = "changed_assumptions" ∷ [];
      requires_assembly_source = false;
    }
    ∷ record {
      name = "strengthens";
      from_kinds = claim_kinds;
      to_kinds = claim_kinds;
      status_effect = "none";
      required_properties = "changed_assumptions" ∷ [];
      requires_assembly_source = false;
    }
    ∷ record {
      name = "weakens";
      from_kinds = claim_kinds;
      to_kinds = claim_kinds;
      status_effect = "none";
      required_properties = "changed_assumptions" ∷ [];
      requires_assembly_source = false;
    }
    ∷ []

unfoldable pub provenance_relations : List Relation
provenance_relations =
    record {
      name = "formalized_as";
      from_kinds = "source_claim" ∷ "research_claim" ∷ [];
      to_kinds = "formal_claim" ∷ [];
      status_effect = "encodes_target";
      required_properties = "formalization_relationship" ∷ "changed_assumptions" ∷ [];
      requires_assembly_source = false;
    }
    ∷ record {
      name = "produced_by";
      from_kinds = any_claimlike ++ ("artifact" ∷ []);
      to_kinds = "turn" ∷ "check" ∷ "computation" ∷ [];
      status_effect = "none";
      required_properties = [];
      requires_assembly_source = false;
    }
    ∷ record {
      name = "certified_by";
      from_kinds = "formal_claim" ∷ [];
      to_kinds = "artifact" ∷ [];
      status_effect = "none";
      required_properties = "verification_level" ∷ [];
      requires_assembly_source = false;
    }
    ∷ record {
      name = "included_in";
      from_kinds = "formal_claim" ∷ "artifact" ∷ [];
      to_kinds = "artifact" ∷ [];
      status_effect = "none";
      required_properties = [];
      requires_assembly_source = false;
    }
    ∷ record {
      name = "targets";
      from_kinds = scope_kinds;
      to_kinds = claim_kinds;
      status_effect = "none";
      required_properties = [];
      requires_assembly_source = false;
    }
    ∷ record {
      name = "annotates";
      from_kinds = "annotation" ∷ [];
      to_kinds = object_kind_names;
      status_effect = "none";
      required_properties = [];
      requires_assembly_source = false;
    }
    ∷ record {
      name = "has_version";
      from_kinds = "publication" ∷ [];
      to_kinds = "source_version" ∷ [];
      status_effect = "none";
      required_properties = [];
      requires_assembly_source = false;
    }
    ∷ record {
      name = "has_source";
      from_kinds = "source_version" ∷ [];
      to_kinds = "artifact" ∷ [];
      status_effect = "none";
      required_properties = [];
      requires_assembly_source = false;
    }
    ∷ record {
      name = "contains";
      from_kinds = "source_version" ∷ [];
      to_kinds = "source_claim" ∷ [];
      status_effect = "none";
      required_properties = [];
      requires_assembly_source = false;
    }
    ∷ []

unfoldable pub relations : List Relation
unfolding mathematical_relations provenance_relations object_kind_names
relations = mathematical_relations ++ provenance_relations
