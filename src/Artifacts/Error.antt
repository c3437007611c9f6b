-- ===== src/Artifacts/Error.antt =====
-- The errors of ledger/artifacts.py.
use lean_evolve.Prelude.{String}

-- `ArtifactError`, a constructor for each message.
pub data ArtifactError : Type 0 where
  stored_hash : String → String → ArtifactError
  not_regular : String → ArtifactError
  changed_while_copied : String → ArtifactError
  no_local_copy : String → ArtifactError
  corrupt : String → ArtifactError
  object_conflict : String → ArtifactError
