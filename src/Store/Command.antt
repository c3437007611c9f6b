-- ===== src/Store/Command.antt =====
-- The calls that a block makes on its write session (ledger/store.py `WriteSession`).
use lean_evolve.Prelude.{String, Bool, Option}
use lean_evolve.Value.{Fields}
use lean_evolve.Events.{Draft}
use lean_evolve.Store.Objects.{NewObject}
use lean_evolve.Store.Artifacts.{NewArtifact}

-- A call of a method of the session.
pub data Command : Type 0 where
  record_event : Draft → Command
  create_object : NewObject → Command
  add_alias : String → String → Command
  connect : String → String → String → Fields → Option String → Command
  retract : String → String → String → String → Command
  register_artifact : NewArtifact → Command
  add_location : String → String → Command
  verify_location : String → String → Bool → Command
  lose_location : String → String → String → Command
  archive_artifact : String → String → Command
