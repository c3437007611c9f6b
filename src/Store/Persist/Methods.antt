-- ===== src/Store/Persist/Methods.antt =====
-- Each method of the write session, by the rules of Store/Persist.antt (ledger/store.py).
use lean_evolve.Prelude.{
  ℕ, String, ◌≡◌, refl, sym, ap, subst, ◌∙◌, Bool, Option, none, some, find, maybe, ◌==◌,
}
use lean_evolve.Value.{dict, Fields, Host}
use lean_evolve.Events.{Event}
use lean_evolve.Store.Tables.{
  ObjectRow, ObjectRecord, ConnectionRecord, object, place_object, object_from_row,
}
use lean_evolve.Store.Exec.{
  LedgerError, unencodable, assertion, Session, Action, pure, raise, lift, gets, modify, ◌>>=◌,
  or_raise,
}
use lean_evolve.Store.Session.{record_event}
use lean_evolve.Store.Objects.{
  NewObject, check_object, object_draft, object_row, existing_object, insert_object, create_object,
  add_alias,
}
use lean_evolve.Store.Connections.{
  write_edge, assert_edge, existing_edge, connect, retract_edge, retract,
}
use lean_evolve.Store.Artifacts.{
  NewArtifact, register_artifact, require_artifact, write_location, enter_location, add_location,
  verify_location, lose_location, archive_artifact,
}
use lean_evolve.Store.Persist.{
  Persists, Stays, Stays-pure, Stays-raise, Stays-lift, Stays-gets, Stays-or_raise,
  Stays-raise_when, Stays-if, Stays-maybe, Stays-bind, Stays-attempt, bind-Persists,
}
use lean_evolve.Store.Persist.Record.{
  Stays-modify, Stays-record_event, record_event-objects, place_object-Persists,
}
use lean_evolve.Store.Block.{
  Uses, returns, reads, binds, attempts, records, creates, aliases, connects, retracts, registers,
  locates, verifies, loses, archives,
}

or_raise-same : {A : Type 0} (o : Option A) (e : LedgerError) (s : Session) → (or_raise o e s).1 ≡ s
unfolding raise pure
or_raise-same none e s = refl
or_raise-same (some a) e s = refl

module _ (host : Host) where
  ruleset stays_rules = (
    Stays-pure, Stays-raise, Stays-lift, Stays-gets, Stays-or_raise, Stays-raise_when, Stays-if,
    Stays-maybe, Stays-bind, Stays-record_event, Stays-modify,
  )

  existing_object-Stays : (n : NewObject) (o : ObjectRecord) → Stays host (existing_object host n o)
  unfolding existing_object
  existing_object-Stays n o = search stays_rules

  object-objects :
      (s t : Session) (id : String)
      → t.ledger.objects ≡ s.ledger.objects
      → object host t.ledger id ≡ object host s.ledger id
  unfolding object
  object-objects s t id q =
      ap
        (λ rows.
          maybe none (λ (x : ObjectRow). some (object_from_row host x))
            (find (λ (x : ObjectRow). x.id == id) rows))
        q

  -- The row that `insert_object` places, and the read of it.
  abbrev placing : NewObject → Event → String → Action ObjectRecord
  placing n e text =
      modify (λ l. record l { objects = place_object (object_row host n text e) l.objects })
      >>= (λ _. gets (λ l. object host l n.id) >>= λ o. or_raise o assertion)

  stored-Stays :
      (n : NewObject) → Stays host (gets (λ l. object host l n.id) >>= λ o. or_raise o assertion)
  stored-Stays n = search stays_rules

  placing-Persists :
      (n : NewObject) (e : Event) (text : String) (s : Session)
      → object host s.ledger n.id ≡ none
      → Persists host s.ledger (placing n e text s).1.ledger
  unfolding modify
  placing-Persists n e text s absent =
      bind-Persists host
        (modify (λ l. record l { objects = place_object (object_row host n text e) l.objects }))
        (λ _. gets (λ l. object host l n.id) >>= λ o. or_raise o assertion) s
        (place_object-Persists host (object_row host n text e) s.ledger absent)
        (λ x.
          (stored-Stays n).at
            (modify (λ l. record l { objects = place_object (object_row host n text e) l.objects })
              s).1)

  insert_object-Persists :
      (n : NewObject) (s : Session)
      → object host s.ledger n.id ≡ none
      → Persists host s.ledger (insert_object host n s).1.ledger
  unfolding insert_object
  insert_object-Persists n s absent =
      let text = or_raise (host.dumps (dict n.properties)) unencodable in
      let t = (record_event host (object_draft host n) s).1 in
      let same =
        ap (λ (x : Session). x.ledger.objects) (or_raise-same _ _ t)
        ∙ record_event-objects host (object_draft host n) s in
      bind-Persists host (record_event host (object_draft host n)) (λ e. text >>= placing n e) s
        ((Stays-record_event host (object_draft host n)).at s)
        (λ e.
          bind-Persists host text (placing n e) t ((Stays-or_raise host _ _).at t) (λ x.
            placing-Persists n e x (text t).1 (object-objects s (text t).1 n.id same ∙ absent)))

  existing_or_new :
      (n : NewObject) (o : Option ObjectRecord) (s : Session)
      → object host s.ledger n.id ≡ o
      → Persists host s.ledger (maybe (insert_object host n) (existing_object host n) o s).1.ledger
  existing_or_new n none s q = insert_object-Persists n s q
  existing_or_new n (some o) s q = (existing_object-Stays n o).at s

  pub create_object-Stays : (n : NewObject) → Stays host (create_object host n)
  unfolding create_object gets lift ◌>>=◌
  create_object-Stays n = record {
    at = λ s.
        bind-Persists host (lift (check_object n.kind n.content_format n.properties)) _ s
          ((Stays-lift host (check_object n.kind n.content_format n.properties)).at s)
          (λ _. existing_or_new n (object host s.ledger n.id) s refl);
  }

  pub add_alias-Stays : (alias object_id : String) → Stays host (add_alias host alias object_id)
  unfolding add_alias
  add_alias-Stays alias object_id = search stays_rules depth 12

  existing_edge-Stays : (d : Fields) (c : ConnectionRecord) → Stays host (existing_edge host d c)
  unfolding existing_edge
  existing_edge-Stays d c = search stays_rules

  assert_edge-Stays :
      (f r t : String) (d : Fields) (at : Option String) (known : Option ℕ)
      → Stays host (assert_edge host f r t d at known)
  unfolding assert_edge write_edge
  assert_edge-Stays f r t d at none = search stays_rules depth 8
  assert_edge-Stays f r t d at (some k) = search stays_rules depth 8

  pub connect-Stays :
      (f r t : String) (d : Fields) (at : Option String) → Stays host (connect host f r t d at)
  unfolding connect
  connect-Stays f r t d at = search (stays_rules, existing_edge-Stays, assert_edge-Stays) depth 12

  pub retract-Stays : (f r t reason : String) → Stays host (retract host f r t reason)
  unfolding retract retract_edge
  retract-Stays f r t reason = search stays_rules depth 8

  pub register_artifact-Stays : (a : NewArtifact) → Stays host (register_artifact host a)
  unfolding register_artifact
  register_artifact-Stays a = search (stays_rules, create_object-Stays) depth 8

  require_artifact-Stays : (id : String) → Stays host (require_artifact host id)
  unfolding require_artifact
  require_artifact-Stays id = search stays_rules depth 8

  enter_location-Stays :
      (id place : String) (known : Bool) → Stays host (enter_location host id place known)
  unfolding enter_location write_location
  enter_location-Stays id place known = search stays_rules depth 8

  pub add_location-Stays : (id place : String) → Stays host (add_location host id place)
  unfolding add_location
  add_location-Stays id place =
      search (stays_rules, require_artifact-Stays, enter_location-Stays) depth 8

  pub verify_location-Stays :
      (id place : String) (v : Bool) → Stays host (verify_location host id place v)
  unfolding verify_location
  verify_location-Stays id place v = search (stays_rules, require_artifact-Stays) depth 8

  pub lose_location-Stays :
      (id place reason : String) → Stays host (lose_location host id place reason)
  unfolding lose_location
  lose_location-Stays id place reason = search (stays_rules, require_artifact-Stays) depth 8

  pub archive_artifact-Stays : (id state : String) → Stays host (archive_artifact host id state)
  unfolding archive_artifact
  archive_artifact-Stays id state = search (stays_rules, require_artifact-Stays) depth 8

  stays : {A : Type 0} {m n : Action A} → m ≡ n → Stays host n → Stays host m
  stays e k = subst (Stays host) (sym e) k

  pub Uses-Stays : {A : Type 0} (m : Action A) → Uses host A m → Stays host m
  Uses-Stays m (returns r e) = stays e (Stays-lift host r)
  Uses-Stays m (reads f e) = stays e (Stays-gets host f)
  Uses-Stays m (binds n f e u v) =
      stays e (Stays-bind host n f (Uses-Stays n u) (λ a. Uses-Stays (f a) (v a)))
  Uses-Stays m (attempts caught n e u) = stays e (Stays-attempt host caught n (Uses-Stays n u))
  Uses-Stays m (records draft e) = stays e (Stays-record_event host draft)
  Uses-Stays m (creates n e) = stays e (create_object-Stays n)
  Uses-Stays m (aliases a i e) = stays e (add_alias-Stays a i)
  Uses-Stays m (connects f r t d at e) = stays e (connect-Stays f r t d at)
  Uses-Stays m (retracts f r t reason e) = stays e (retract-Stays f r t reason)
  Uses-Stays m (registers a e) = stays e (register_artifact-Stays a)
  Uses-Stays m (locates i p e) = stays e (add_location-Stays i p)
  Uses-Stays m (verifies i p v e) = stays e (verify_location-Stays i p v)
  Uses-Stays m (loses i p r e) = stays e (lose_location-Stays i p r)
  Uses-Stays m (archives i t e) = stays e (archive_artifact-Stays i t)
