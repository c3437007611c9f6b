-- ===== src/Store/Block.antt =====
-- The body of a `with ledger.write(…) as session` block (ledger/store.py `Ledger.write`): what code
-- can do there with the session that it is given.
use lean_evolve.Prelude.{
  String, ◌≡◌, refl, Bool, true, false, Option, none, some, List, [], ◌∷◌, maybe, Except, ok, err,
  if◌then◌else◌,
}
use lean_evolve.Value.{Fields, Host}
use lean_evolve.Events.{Draft, Event}
use lean_evolve.Store.Tables.{Ledger, ObjectRecord, ConnectionRecord}
use lean_evolve.Store.Exec.{
  LedgerError, Action, pure, raise, lift, gets, ◌>>=◌, raise_when, or_raise,
}
use lean_evolve.Store.Session.{record_event}
use lean_evolve.Store.Objects.{NewObject, create_object, add_alias}
use lean_evolve.Store.Connections.{connect, retract}
use lean_evolve.Store.Artifacts.{
  NewArtifact, register_artifact, add_location, verify_location, lose_location, archive_artifact,
}
use lean_evolve.Store.Command.{Command}
use lean_evolve.Store.Transaction.{Step, attempt, perform, run_steps}

module _ (host : Host) where
  -- A block reads the ledger, raises, catches, branches, and writes by the methods of the session
  -- only. An equation says which action a constructor stands for.
  pub data Uses : (A : Type 0) → Action A → Type 1 where
    returns : {A : Type 0} {m : Action A} (r : Except LedgerError A) → m ≡ lift r → Uses _ m
    reads : {A : Type 0} {m : Action A} (f : Ledger → A) → m ≡ gets f → Uses _ m
    binds :
        {A B : Type 0} {m : Action B} (n : Action A) (f : A → Action B)
        → m ≡ (n >>= f)
        → Uses _ n
        → ((a : A) → Uses _ (f a))
        → Uses _ m
    attempts :
        {A : Type 0} {m : Action (Unit {0})} (caught : Bool) (n : Action A)
        → m ≡ attempt caught n
        → Uses _ n
        → Uses _ m
    records : {m : Action Event} (draft : Draft) → m ≡ record_event host draft → Uses _ m
    creates : {m : Action ObjectRecord} (n : NewObject) → m ≡ create_object host n → Uses _ m
    aliases :
        {m : Action (Unit {0})} (alias object_id : String)
        → m ≡ add_alias host alias object_id
        → Uses _ m
    connects :
        {m : Action ConnectionRecord} (f r t : String) (d : Fields) (at : Option String)
        → m ≡ connect host f r t d at
        → Uses _ m
    retracts :
        {m : Action (Unit {0})} (f r t reason : String) → m ≡ retract host f r t reason → Uses _ m
    registers :
        {m : Action ObjectRecord} (a : NewArtifact) → m ≡ register_artifact host a → Uses _ m
    locates :
        {m : Action (Unit {0})} (id place : String) → m ≡ add_location host id place → Uses _ m
    verifies :
        {m : Action (Unit {0})} (id place : String) (v : Bool)
        → m ≡ verify_location host id place v
        → Uses _ m
    loses :
        {m : Action (Unit {0})} (id place reason : String)
        → m ≡ lose_location host id place reason
        → Uses _ m
    archives :
        {m : Action (Unit {0})} (id state : String) → m ≡ archive_artifact host id state → Uses _ m

  module _ {A : Type 0} where
    pub Uses-pure : (a : A) → Uses _ (pure a)
    unfolding pure lift
    Uses-pure a = returns (ok a) refl

    pub Uses-raise : (e : LedgerError) → Uses _ (raise {A = A} e)
    unfolding raise lift
    Uses-raise e = returns (err e) refl

    pub Uses-lift : (r : Except LedgerError A) → Uses _ (lift r)
    Uses-lift r = returns r refl

    pub Uses-gets : (f : Ledger → A) → Uses _ (gets f)
    Uses-gets f = reads f refl

    pub Uses-or_raise : (o : Option A) (e : LedgerError) → Uses _ (or_raise o e)
    Uses-or_raise none e = Uses-raise e
    Uses-or_raise (some a) e = Uses-pure a

    pub Uses-if : (b : Bool) (m n : Action A) → Uses _ m → Uses _ n → Uses _ (if b then m else n)
    Uses-if true m n k l = k
    Uses-if false m n k l = l

  pub Uses-raise_when : (b : Bool) (e : LedgerError) → Uses _ (raise_when b e)
  Uses-raise_when true e = Uses-raise e
  Uses-raise_when false e = Uses-pure tt

  module _ {A B : Type 0} where
    pub Uses-maybe :
        (m : Action B) (f : A → Action B) (o : Option A)
        → Uses _ m
        → ((a : A) → Uses _ (f a))
        → Uses _ (maybe m f o)
    Uses-maybe m f none k l = k
    Uses-maybe m f (some a) k l = l a

    pub Uses-bind :
        (m : Action A) (f : A → Action B) → Uses _ m → ((a : A) → Uses _ (f a)) → Uses _ (m >>= f)
    Uses-bind m f k l = binds m f refl k l

  pub Uses-attempt :
      {A : Type 0} (caught : Bool) (m : Action A) → Uses _ m → Uses _ (attempt caught m)
  Uses-attempt caught m k = attempts caught m refl k

  pub Uses-record_event : (draft : Draft) → Uses _ (record_event host draft)
  Uses-record_event draft = records draft refl

  pub Uses-create_object : (n : NewObject) → Uses _ (create_object host n)
  Uses-create_object n = creates n refl

  pub Uses-add_alias : (alias object_id : String) → Uses _ (add_alias host alias object_id)
  Uses-add_alias alias object_id = aliases alias object_id refl

  pub Uses-connect :
      (f r t : String) (d : Fields) (at : Option String) → Uses _ (connect host f r t d at)
  Uses-connect f r t d at = connects f r t d at refl

  pub Uses-retract : (f r t reason : String) → Uses _ (retract host f r t reason)
  Uses-retract f r t reason = retracts f r t reason refl

  pub Uses-register_artifact : (a : NewArtifact) → Uses _ (register_artifact host a)
  Uses-register_artifact a = registers a refl

  pub Uses-add_location : (id place : String) → Uses _ (add_location host id place)
  Uses-add_location id place = locates id place refl

  pub Uses-verify_location :
      (id place : String) (v : Bool) → Uses _ (verify_location host id place v)
  Uses-verify_location id place v = verifies id place v refl

  pub Uses-lose_location : (id place reason : String) → Uses _ (lose_location host id place reason)
  Uses-lose_location id place reason = loses id place reason refl

  pub Uses-archive_artifact : (id state : String) → Uses _ (archive_artifact host id state)
  Uses-archive_artifact id state = archives id state refl

  ruleset uses = (
    Uses-pure, Uses-raise, Uses-lift, Uses-gets, Uses-or_raise, Uses-if, Uses-raise_when,
    Uses-maybe, Uses-bind, Uses-attempt, Uses-record_event, Uses-create_object, Uses-add_alias,
    Uses-connect, Uses-retract, Uses-register_artifact, Uses-add_location, Uses-verify_location,
    Uses-lose_location, Uses-archive_artifact,
  )

  perform-Uses : (caught : Bool) (c : Command) → Uses _ (perform host caught c)
  unfolding perform
  perform-Uses caught (Command.record_event draft) = search uses
  perform-Uses caught _ = search uses

  pub run_steps-Uses : (steps : List Step) → Uses _ (run_steps host steps)
  unfolding run_steps
  run_steps-Uses [] = Uses-pure tt
  run_steps-Uses ((caught, command) ∷ steps) =
      Uses-bind _ _ (perform-Uses caught command) (λ _. run_steps-Uses steps)
