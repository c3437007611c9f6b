-- ===== src/Store/Persist.antt =====
-- What a reader found before a step of a session and finds after it: the objects by their ids, and the
-- events by their keys (ledger/store.py `Ledger.object`, `Ledger._event_by_key`).
pub mod Record
pub mod Methods
use lean_evolve.Prelude.{
  String, ◌≡◌, refl, Bool, true, false, Option, none, some, maybe, Except, ok, err, if◌then◌else◌,
}
use lean_evolve.Value.{Host}
use lean_evolve.Events.{Event}
use lean_evolve.Store.Tables.{Ledger, ObjectRecord, object, event_by_key}
use lean_evolve.Store.Exec.{
  LedgerError, Session, Action, pure, raise, lift, gets, modify, ◌>>=◌, raise_when, or_raise,
}
use lean_evolve.Store.Transaction.{attempt}

module _ (host : Host) where
  pub record Persists (l m : Ledger) : Type 0 where
    pub objects_kept :
        (id : String) (o : ObjectRecord) → object host l id ≡ some o → object host m id ≡ some o
    pub keys_kept :
        (key : String) (e : Event)
        → event_by_key host l key ≡ some e
        → event_by_key host m key ≡ some e

  pub Persists-refl : (l : Ledger) → Persists l l
  Persists-refl l = record { objects_kept = λ id o h. h; keys_kept = λ key e h. h }

  pub Persists-trans : {l m n : Ledger} → Persists l m → Persists m n → Persists l n
  Persists-trans g h = record {
    objects_kept = λ id o k. h.objects_kept id o (g.objects_kept id o k);
    keys_kept = λ key e k. h.keys_kept key e (g.keys_kept key e k);
  }

  -- An action under which everything that could be read still can, whether it returns or raises.
  pub record Stays {A : Type 0} (m : Action A) : Type 0 where
    pub at : (s : Session) → Persists s.ledger (m s).1.ledger

  module _ {A : Type 0} where
    pub Stays-pure : (a : A) → Stays (pure a)
    unfolding pure
    Stays-pure a = record { at = λ s. Persists-refl s.ledger }

    pub Stays-raise : (e : LedgerError) → Stays (raise {A = A} e)
    unfolding raise
    Stays-raise e = record { at = λ s. Persists-refl s.ledger }

    pub Stays-lift : (r : Except LedgerError A) → Stays (lift r)
    unfolding lift
    Stays-lift r = record { at = λ s. Persists-refl s.ledger }

    pub Stays-gets : (f : Ledger → A) → Stays (gets f)
    unfolding gets
    Stays-gets f = record { at = λ s. Persists-refl s.ledger }

    pub Stays-or_raise : (o : Option A) (e : LedgerError) → Stays (or_raise o e)
    Stays-or_raise none e = Stays-raise e
    Stays-or_raise (some a) e = Stays-pure a

    pub Stays-if : (b : Bool) (m n : Action A) → Stays m → Stays n → Stays (if b then m else n)
    Stays-if true m n k l = k
    Stays-if false m n k l = l

  pub Stays-raise_when : (b : Bool) (e : LedgerError) → Stays (raise_when b e)
  Stays-raise_when true e = Stays-raise e
  Stays-raise_when false e = Stays-pure tt

  module _ {A B : Type 0} where
    pub Stays-maybe :
        (m : Action B) (f : A → Action B) (o : Option A)
        → Stays m
        → ((a : A) → Stays (f a))
        → Stays (maybe m f o)
    Stays-maybe m f none k l = k
    Stays-maybe m f (some a) k l = l a

    -- A step, and what follows it from the session that it leaves.
    follows :
        (r : Except LedgerError A) (f : A → Action B) (s t : Session)
        → Persists s.ledger t.ledger
        → ((a : A) → Persists t.ledger (f a t).1.ledger)
        → Persists s.ledger ((lift r >>= f) t).1.ledger
    unfolding ◌>>=◌
    follows (ok a) f s t g k = Persists-trans g (k a)
    follows (err e) f s t g k = g

    pub bind-Persists :
        (m : Action A) (f : A → Action B) (s : Session)
        → Persists s.ledger (m s).1.ledger
        → ((a : A) → Persists (m s).1.ledger (f a (m s).1).1.ledger)
        → Persists s.ledger ((m >>= f) s).1.ledger
    unfolding ◌>>=◌
    bind-Persists m f s g k = follows (m s).0 f s (m s).1 g k

    pub Stays-bind :
        (m : Action A) (f : A → Action B) → Stays m → ((a : A) → Stays (f a)) → Stays (m >>= f)
    Stays-bind m f k l = record { at = λ s. bind-Persists m f s (k.at s) (λ a. (l a).at (m s).1) }

  pub Stays-attempt :
      {A : Type 0} (caught : Bool) (m : Action A) → Stays m → Stays (attempt caught m)
  unfolding attempt
  Stays-attempt {A = A} caught m k = record { at = λ s. handled caught (m s).0 s (m s).1 (k.at s) }
    where
      handled :
          (caught : Bool) (r : Except LedgerError A) (s t : Session)
          → Persists s.ledger t.ledger
          → Persists s.ledger (attempt caught (λ _. (r, t)) s).1.ledger
      handled caught (ok a) s t h = h
      handled true (err e) s t h = h
      handled false (err e) s t h = h
