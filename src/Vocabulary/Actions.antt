-- ===== src/Vocabulary/Actions.antt =====
-- ledger/vocabulary.py, the event actions with the actors that may emit them and the payload that
-- each takes.
pub mod Declared
pub mod Checks
pub mod Outcomes
pub mod Scopes
pub mod Artifacts
use lean_evolve.Prelude.{List, ◌++◌}
pub use lean_evolve.Vocabulary.Actions.Declared.{
  actors, EventAction, all_actors, on_object, on_connection, on_object_or_connection, on_ledger,
}
pub use lean_evolve.Vocabulary.Actions.Checks.{
  creation_and_correction_actions, check_lifecycle_actions,
}
pub use lean_evolve.Vocabulary.Actions.Outcomes.{formal_outcomes_actions, computation_actions}
pub use lean_evolve.Vocabulary.Actions.Scopes.{sources_actions, operational_scopes_actions}
pub use lean_evolve.Vocabulary.Actions.Artifacts.{artifacts_actions, lifecycle_and_recovery_actions}

unfoldable pub event_actions : List EventAction
unfolding creation_and_correction_actions check_lifecycle_actions formal_outcomes_actions
    computation_actions sources_actions operational_scopes_actions artifacts_actions
    lifecycle_and_recovery_actions
event_actions =
    creation_and_correction_actions
    ++ (check_lifecycle_actions
        ++ (formal_outcomes_actions
            ++ (computation_actions
                ++ (sources_actions
                    ++ (operational_scopes_actions
                        ++ (artifacts_actions ++ lifecycle_and_recovery_actions))))))
