-- ===== src/Store/Edges/Still.antt =====
-- The methods of ledger/store.py that leave the table of connections alone.
use lean_evolve.Prelude.{
  String, List, ◌≡◌, refl, ap, ◌∙◌, Bool, true, false, Option, none, some, maybe, Except, ok, err,
  if◌then◌else◌,
}
use lean_evolve.Value.{Host}
use lean_evolve.Events.{Draft, Event}
use lean_evolve.Store.Tables.{Ledger, ObjectRecord, ConnectionRow}
use lean_evolve.Store.Exec.{
  LedgerError, Session, Action, pure, raise, lift, gets, modify, ◌>>=◌, raise_when, or_raise,
}
use lean_evolve.Store.Session.{record_event}
use lean_evolve.Store.Append.{Recorded, failed, appended, found, record_event-Recorded}
use lean_evolve.Store.Objects.{NewObject, existing_object, insert_object, create_object, add_alias}
use lean_evolve.Store.Artifacts.{
  NewArtifact, register_artifact, require_artifact, write_location, enter_location, add_location,
  verify_location, lose_location, archive_artifact,
}

abbrev pub edges : Session → List ConnectionRow
edges s = s.ledger.connections

-- An action that leaves the connections alone, whether it returns or raises.
pub record Still {A : Type 0} (m : Action A) : Type 0 where
  pub at : (s : Session) → edges (m s).1 ≡ edges s

module _ {A : Type 0} where
  pub Still-pure : (a : A) → Still (pure a)
  unfolding pure
  Still-pure a = record { at = λ s. refl }

  pub Still-raise : (e : LedgerError) → Still (raise {A = A} e)
  unfolding raise
  Still-raise e = record { at = λ s. refl }

  pub Still-gets : (f : Ledger → A) → Still (gets f)
  unfolding gets
  Still-gets f = record { at = λ s. refl }

  pub Still-lift : (r : Except LedgerError A) → Still (lift r)
  unfolding lift
  Still-lift r = record { at = λ s. refl }

  pub Still-or_raise : (o : Option A) (e : LedgerError) → Still (or_raise o e)
  Still-or_raise none e = Still-raise e
  Still-or_raise (some a) e = Still-pure a

  pub Still-if : (b : Bool) (m n : Action A) → Still m → Still n → Still (if b then m else n)
  Still-if true m n k l = k
  Still-if false m n k l = l

pub Still-raise_when : (b : Bool) (e : LedgerError) → Still (raise_when b e)
Still-raise_when true e = Still-raise e
Still-raise_when false e = Still-pure tt

pub Still-modify :
    (f : Ledger → Ledger) → ((l : Ledger) → (f l).connections ≡ l.connections) → Still (modify f)
unfolding modify
Still-modify f same = record { at = λ s. same s.ledger }

module _ {A B : Type 0} where
  pub Still-maybe :
      (m : Action B) (f : A → Action B) (o : Option A)
      → Still m
      → ((a : A) → Still (f a))
      → Still (maybe m f o)
  Still-maybe m f none k l = k
  Still-maybe m f (some a) k l = l a

  goes_on :
      (r : Except LedgerError A) (f : A → Action B) (t : Session)
      → ((a : A) → Still (f a))
      → edges ((lift r >>= f) t).1 ≡ edges t
  unfolding ◌>>=◌
  goes_on (ok a) f t k = (k a).at t
  goes_on (err e) f t k = refl

  pub Still-bind :
      (m : Action A) (f : A → Action B) → Still m → ((a : A) → Still (f a)) → Still (m >>= f)
  unfolding ◌>>=◌
  Still-bind m f k l = record { at = λ s. goes_on (m s).0 f (m s).1 l ∙ k.at s }

module _ (host : Host) where
  Recorded-edges :
      {draft : Draft} {s t : Session} {r : Except LedgerError Event}
      → Recorded host draft s r t
      → edges t ≡ edges s
  Recorded-edges (failed e) = ap edges e
  Recorded-edges (found k e) = ap edges e
  Recorded-edges (appended a) = ap edges a.moved

  pub Still-record_event : (draft : Draft) → Still (record_event host draft)
  Still-record_event draft = record {
    at = λ s. Recorded-edges (record_event-Recorded host draft s);
  }

  ruleset still_rules = (
    Still-pure, Still-raise, Still-lift, Still-gets, Still-or_raise, Still-raise_when, Still-if,
    Still-maybe, Still-bind, Still-record_event, Still-modify,
  )

  existing_object-Still : (n : NewObject) (o : ObjectRecord) → Still (existing_object host n o)
  unfolding existing_object
  existing_object-Still n o = search still_rules

  insert_object-Still : (n : NewObject) → Still (insert_object host n)
  unfolding insert_object
  insert_object-Still n = search still_rules depth 8

  pub create_object-Still : (n : NewObject) → Still (create_object host n)
  unfolding create_object
  create_object-Still n = search (still_rules, existing_object-Still, insert_object-Still)

  pub add_alias-Still : (alias object_id : String) → Still (add_alias host alias object_id)
  unfolding add_alias
  add_alias-Still alias object_id = search still_rules depth 12

  pub register_artifact-Still : (a : NewArtifact) → Still (register_artifact host a)
  unfolding register_artifact
  register_artifact-Still a = search (still_rules, create_object-Still) depth 8

  require_artifact-Still : (id : String) → Still (require_artifact host id)
  unfolding require_artifact
  require_artifact-Still id = search still_rules depth 8

  enter_location-Still :
      (id place : String) (known : Bool) → Still (enter_location host id place known)
  unfolding enter_location write_location
  enter_location-Still id place known = search still_rules depth 8

  pub add_location-Still : (id place : String) → Still (add_location host id place)
  unfolding add_location
  add_location-Still id place =
      search (still_rules, require_artifact-Still, enter_location-Still) depth 8

  pub verify_location-Still :
      (id place : String) (v : Bool) → Still (verify_location host id place v)
  unfolding verify_location
  verify_location-Still id place v = search (still_rules, require_artifact-Still) depth 8

  pub lose_location-Still : (id place reason : String) → Still (lose_location host id place reason)
  unfolding lose_location
  lose_location-Still id place reason = search (still_rules, require_artifact-Still) depth 8

  pub archive_artifact-Still : (id state : String) → Still (archive_artifact host id state)
  unfolding archive_artifact
  archive_artifact-Still id state = search (still_rules, require_artifact-Still) depth 8
