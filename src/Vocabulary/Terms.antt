-- ===== src/Vocabulary/Terms.antt =====
-- ledger/vocabulary.py, the derived-state dimensions, the object kinds and the small sets of terms.
-- The descriptions, which no check reads, are left out.
use lean_evolve.Prelude.{ℕ, String, List, [], ◌∷◌, map}

abbrev pub truth_states : List String
truth_states = "open" ∷ "proved" ∷ "refuted" ∷ []

abbrev pub verification_levels : List String
verification_levels =
    "untested" ∷ "elaboration_failed" ∷ "scratch_checked" ∷ "axiom_policy_audited"
    ∷ "authoritatively_evaluated" ∷ "promotion_audited" ∷ []

abbrev pub verification_order : List (String × ℕ)
verification_order =
    ("untested", 0)
    ∷ ("elaboration_failed", 0)
    ∷ ("scratch_checked", 1)
    ∷ ("axiom_policy_audited", 2)
    ∷ ("authoritatively_evaluated", 3)
    ∷ ("promotion_audited", 4)
    ∷ []

abbrev pub encoding_states : List String
encoding_states = "not_encoded" ∷ "proposition_only" ∷ "partially_formalized" ∷ "fully_encoded" ∷ []

abbrev pub lifecycle_states : List String
lifecycle_states = "active" ∷ "superseded" ∷ "retracted" ∷ "archived" ∷ []

abbrev pub source_evidence_states : List String
source_evidence_states =
    "published_with_proof" ∷ "published_claim_with_omitted_argument" ∷ "versioned_preprint_only"
    ∷ "published_open_conjecture" ∷ "secondary_attribution_only" ∷ "claimed_proof_unaccepted"
    ∷ "source_not_obtained" ∷ []

abbrev pub operational_states : List String
operational_states =
    "queued" ∷ "running" ∷ "completed" ∷ "failed" ∷ "timed_out" ∷ "interrupted" ∷ "recoverable" ∷ []

abbrev pub state_dimensions : List (String × List String)
state_dimensions =
    ("truth", truth_states)
    ∷ ("verification", verification_levels)
    ∷ ("encoding", encoding_states)
    ∷ ("lifecycle", lifecycle_states)
    ∷ ("source_evidence", source_evidence_states)
    ∷ ("operational", operational_states)
    ∷ []

pub record ObjectKind : Type 0 where
  pub name : String
  pub required_properties : List String
  pub content_formats : List String

unfoldable pub object_kinds : List ObjectKind
object_kinds =
    record {
      name = "formal_claim";
      required_properties =
          "formal_system" ∷ "declaration" ∷ "proposition_sha256" ∷ "environment_identity" ∷ [];
      content_formats = "lean" ∷ "text" ∷ [];
    }
    ∷ record {
      name = "research_claim";
      required_properties = [];
      content_formats = "markdown" ∷ "text" ∷ [];
    }
    ∷ record {
      name = "counterexample";
      required_properties = "witness_format" ∷ [];
      content_formats = "json" ∷ "lean" ∷ "text" ∷ [];
    }
    ∷ record {
      name = "computation";
      required_properties = "method" ∷ [];
      content_formats = "json" ∷ "text" ∷ [];
    }
    ∷ record {
      name = "publication";
      required_properties = "permanent_identifier" ∷ [];
      content_formats = "json" ∷ [];
    }
    ∷ record {
      name = "source_version";
      required_properties = "version_label" ∷ [];
      content_formats = "json" ∷ [];
    }
    ∷ record {
      name = "source_claim";
      required_properties = "locator" ∷ "source_evidence_state" ∷ [];
      content_formats = "markdown" ∷ "text" ∷ [];
    }
    ∷ record {
      name = "artifact";
      required_properties = "sha256" ∷ "artifact_type" ∷ "byte_size" ∷ "media_type" ∷ [];
      content_formats = "none" ∷ [];
    }
    ∷ record { name = "campaign"; required_properties = []; content_formats = "json" ∷ [] }
    ∷ record { name = "epoch"; required_properties = []; content_formats = "json" ∷ [] }
    ∷ record { name = "turn"; required_properties = []; content_formats = "json" ∷ [] }
    ∷ record {
      name = "check";
      required_properties = "checkpoint_key" ∷ "request_class" ∷ [];
      content_formats = "json" ∷ [];
    }
    ∷ record {
      name = "annotation";
      required_properties = [];
      content_formats = "markdown" ∷ "text" ∷ [];
    }
    ∷ []

-- The keys of `OBJECT_KINDS`.
unfoldable pub object_kind_names : List String
unfolding object_kinds
object_kind_names = map (λ k. k.name) object_kinds

abbrev pub content_formats : List String
content_formats = "lean" ∷ "text" ∷ "markdown" ∷ "json" ∷ "none" ∷ []

abbrev pub scope_kinds : List String
scope_kinds = "campaign" ∷ "epoch" ∷ "turn" ∷ []

abbrev pub formalization_relationships : List String
formalization_relationships =
    "literal_encoding" ∷ "specialization" ∷ "strengthening" ∷ "weakening" ∷ "consequence"
    ∷ "equivalence" ∷ "helper" ∷ []

abbrev pub trust_levels : List String
trust_levels = "kernel" ∷ "checked_certificate" ∷ "computational" ∷ "asserted" ∷ []

abbrev pub subject_types : List String
subject_types = "object" ∷ "connection" ∷ "ledger" ∷ []

abbrev pub truth_bearing_actions : List String
truth_bearing_actions = "kernel_certified" ∷ []

abbrev pub retention_states : List String
retention_states = "retained" ∷ "archived" ∷ "external_only" ∷ "lost" ∷ []
