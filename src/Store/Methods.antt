-- ===== src/Store/Methods.antt =====
-- Each method of the write session, by the rules of Store/Growth.antt (ledger/store.py).
use lean_evolve.Prelude.{
  ℕ, String, ◌≡◌, refl, Bool, true, Option, none, some, List, [], ◌∷◌, any, ◌==◌, arith,
}
use lean_evolve.Value.{Fields, Host}
use lean_evolve.Store.Tables.{
  Ledger, ObjectRow, ObjectRecord, ConnectionRecord, place_object, object_exists,
}
use lean_evolve.Store.Exec.{modify}
use lean_evolve.Store.Growth.{
  Keeps, Keeps-pure, Keeps-raise, Keeps-lift, Keeps-gets, Keeps-or_raise, Keeps-raise_when,
  Keeps-if, Keeps-maybe, Keeps-bind, Keeps-modify,
}
use lean_evolve.Store.History.{Keeps-record_event}
use lean_evolve.Store.Objects.{NewObject, existing_object, insert_object, create_object, add_alias}
use lean_evolve.Store.Connections.{
  write_edge, assert_edge, existing_edge, connect, retract_edge, retract,
}
use lean_evolve.Store.Artifacts.{
  NewArtifact, register_artifact, require_artifact, write_location, enter_location, add_location,
  verify_location, lose_location, archive_artifact,
}

-- A row that is placed hides no other.
any-place_object :
    (id : String) (r : ObjectRow) (rows : List ObjectRow)
    → any (λ o. o.id == id) rows ≡ true
    → any (λ o. o.id == id) (place_object r rows) ≡ true
unfolding place_object
any-place_object id r [] h = absurd (ground arith)
any-place_object id r (x ∷ rows) h = ground (arith, any-place_object id r rows)

module _ (host : Host) where
  -- A write that leaves events and objects alone.
  Keeps-modify_other :
      (f : Ledger → Ledger)
      → ((l : Ledger) → (f l).events ≡ l.events)
      → ((l : Ledger) → (f l).objects ≡ l.objects)
      → Keeps host (modify f)
  unfolding object_exists
  Keeps-modify_other f events objects = Keeps-modify host f events (λ l id h. rw (objects l) h)

  ruleset keeps_rules = (
    Keeps-pure, Keeps-raise, Keeps-lift, Keeps-gets, Keeps-or_raise, Keeps-raise_when, Keeps-if,
    Keeps-maybe, Keeps-bind, Keeps-record_event,
  )

  existing_object-Keeps : (n : NewObject) (o : ObjectRecord) → Keeps host (existing_object host n o)
  unfolding existing_object
  existing_object-Keeps n o = search keeps_rules

  place_object-Keeps :
      (r : ObjectRow) → Keeps host (modify (λ l. record l { objects = place_object r l.objects }))
  unfolding object_exists
  place_object-Keeps r =
      Keeps-modify host _ (λ l. refl) (λ l id h. any-place_object id r l.objects h)

  insert_object-Keeps : (n : NewObject) → Keeps host (insert_object host n)
  unfolding insert_object
  insert_object-Keeps n = search (keeps_rules, place_object-Keeps) depth 8

  pub create_object-Keeps : (n : NewObject) → Keeps host (create_object host n)
  unfolding create_object
  create_object-Keeps n = search (keeps_rules, existing_object-Keeps, insert_object-Keeps)

  pub add_alias-Keeps : (alias object_id : String) → Keeps host (add_alias host alias object_id)
  unfolding add_alias
  add_alias-Keeps alias object_id = search (keeps_rules, Keeps-modify_other) depth 12

  existing_edge-Keeps : (d : Fields) (c : ConnectionRecord) → Keeps host (existing_edge host d c)
  unfolding existing_edge
  existing_edge-Keeps d c = search keeps_rules

  assert_edge-Keeps :
      (f r t : String) (d : Fields) (at : Option String) (known : Option ℕ)
      → Keeps host (assert_edge host f r t d at known)
  unfolding assert_edge write_edge
  assert_edge-Keeps f r t d at none = search (keeps_rules, Keeps-modify_other) depth 8
  assert_edge-Keeps f r t d at (some k) = search (keeps_rules, Keeps-modify_other) depth 8

  pub connect-Keeps :
      (f r t : String) (d : Fields) (at : Option String) → Keeps host (connect host f r t d at)
  unfolding connect
  connect-Keeps f r t d at = search (keeps_rules, existing_edge-Keeps, assert_edge-Keeps) depth 12

  pub retract-Keeps : (f r t reason : String) → Keeps host (retract host f r t reason)
  unfolding retract retract_edge
  retract-Keeps f r t reason = search (keeps_rules, Keeps-modify_other) depth 8

  pub register_artifact-Keeps : (a : NewArtifact) → Keeps host (register_artifact host a)
  unfolding register_artifact
  register_artifact-Keeps a = search (keeps_rules, create_object-Keeps) depth 8

  require_artifact-Keeps : (id : String) → Keeps host (require_artifact host id)
  unfolding require_artifact
  require_artifact-Keeps id = search keeps_rules depth 8

  enter_location-Keeps :
      (id place : String) (known : Bool) → Keeps host (enter_location host id place known)
  unfolding enter_location write_location
  enter_location-Keeps id place known = search (keeps_rules, Keeps-modify_other) depth 8

  pub add_location-Keeps : (id place : String) → Keeps host (add_location host id place)
  unfolding add_location
  add_location-Keeps id place =
      search (keeps_rules, require_artifact-Keeps, enter_location-Keeps) depth 8

  pub verify_location-Keeps :
      (id place : String) (v : Bool) → Keeps host (verify_location host id place v)
  unfolding verify_location
  verify_location-Keeps id place v =
      search (keeps_rules, require_artifact-Keeps, Keeps-modify_other) depth 8

  pub lose_location-Keeps :
      (id place reason : String) → Keeps host (lose_location host id place reason)
  unfolding lose_location
  lose_location-Keeps id place reason =
      search (keeps_rules, require_artifact-Keeps, Keeps-modify_other) depth 8

  pub archive_artifact-Keeps : (id state : String) → Keeps host (archive_artifact host id state)
  unfolding archive_artifact
  archive_artifact-Keeps id state = search (keeps_rules, require_artifact-Keeps) depth 8
