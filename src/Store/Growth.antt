-- ===== src/Store/Growth.antt =====
-- What it is for a session to grow, with one rule for each way to build an action of ledger/store.py.
use lean_evolve.Prelude.{
  suc, String, ◌≡◌, refl, sym, ap, subst, ◌∙◌, Bool, true, false, Option, none, some, List, [], ◌∷◌,
  ◌++◌, map, All, All-++, maybe, Except, ok, err, if◌then◌else◌,
}
use mathlib.Core.List.{append_assoc}
use lean_evolve.Value.{dict, Fields, Host}
use lean_evolve.Vocabulary.Contracts.{IsContracted}
use lean_evolve.Vocabulary.Actions.{EventAction}
use lean_evolve.Vocabulary.Validate.{authorize}
use lean_evolve.Events.{Event, EventRow, event_from_row, Envelope}
use lean_evolve.Events.Chain.{head_id, head_hash, IsChain}
use lean_evolve.Store.Tables.{Ledger, object_exists}
use lean_evolve.Store.Exec.{
  LedgerError, Session, Action, pure, raise, lift, gets, modify, ◌>>=◌, raise_when, or_raise,
}
use lean_evolve.Store.Append.{evidence_known}

module _ (host : Host) where
  -- What the vocabulary promises of a stored event, in a ledger that holds `l`'s objects: its actor
  -- may emit it, its payload is the stored form of one that keeps the contract of the action,
  -- evidence is named where the action requires it, and named evidence is an object.
  pub record IsLawful (l : Ledger) (e : Event) : Type 0 where
    pub permitted : authorize e.actor_class e.action ≡ ok tt
    pub declared : EventAction
    pub supplied : Fields
    pub contracted : IsContracted e.action supplied e.evidence_object_id declared
    pub source : (t : String) × (host.dumps (dict supplied) ≡ some t) × (host.loads t ≡ e.payload)
    pub known : evidence_known e.evidence_object_id l ≡ true

  -- The events of a ledger, the newest first.
  abbrev pub history : Ledger → List Event
  history l = map (event_from_row host) l.events

  -- A ledger whose chain verifies and whose events are lawful.
  pub record IsSound (l : Ledger) : Type 0 where
    pub chain : IsChain host (history l)
    pub lawful : All (IsLawful l) (history l)

  -- The event has the actor of the envelope.
  abbrev pub IsBy : Envelope → EventRow → Type 0
  IsBy envelope row = row.actor_class ≡ envelope.actor_class

  -- A session at the end of a sound ledger.
  pub record IsAtHead (s : Session) : Type 0 where
    pub sound : IsSound s.ledger
    pub numbered : s.next_id ≡ suc (head_id (history s.ledger))
    pub linked : s.previous_hash ≡ head_hash (history s.ledger)

  -- The history of `t` is that of `s` behind new events of the session's actor, and `t` is at its
  -- head.
  pub record Extends (s t : Session) : Type 0 where
    pub added : List EventRow
    pub extended : t.ledger.events ≡ added ++ s.ledger.events
    pub authored : All (IsBy s.envelope) added
    pub at_head : IsAtHead t

  pub record Grows (s t : Session) : Type 0 where
    pub objects_stay :
        (id : String) → object_exists s.ledger id ≡ true → object_exists t.ledger id ≡ true
    pub same_envelope : t.envelope ≡ s.envelope
    pub from_head : IsAtHead s → Extends s t

  pub Grows-refl : (s : Session) → Grows s s
  Grows-refl s = record {
    objects_stay = λ id h. h;
    same_envelope = refl;
    from_head = λ h. record { added = []; extended = refl; authored = tt; at_head = h };
  }

  Extends-trans :
      {s t u : Session} → t.envelope ≡ s.envelope → Extends s t → Extends t u → Extends s u
  Extends-trans {s} q g h = record {
    added = h.added ++ g.added;
    extended =
        h.extended ∙ ap (λ es. h.added ++ es) g.extended ∙ sym (append_assoc h.added g.added _);
    authored =
        All-++ (IsBy s.envelope) h.added g.added (subst (λ v. All (IsBy v) h.added) q h.authored)
          g.authored;
    at_head = h.at_head;
  }

  pub Grows-trans : {s t u : Session} → Grows s t → Grows t u → Grows s u
  Grows-trans g h = record {
    objects_stay = λ id k. h.objects_stay id (g.objects_stay id k);
    same_envelope = h.same_envelope ∙ g.same_envelope;
    from_head =
        λ k. let x = g.from_head k in Extends-trans g.same_envelope x (h.from_head x.at_head);
  }

  -- An action under which every session grows, whether it returns or raises.
  pub record Keeps {A : Type 0} (m : Action A) : Type 0 where
    pub at : (s : Session) → Grows s (m s).1

  module _ {A : Type 0} where
    pub Keeps-pure : (a : A) → Keeps (pure a)
    unfolding pure
    Keeps-pure a = record { at = Grows-refl }

    pub Keeps-raise : (e : LedgerError) → Keeps (raise {A = A} e)
    unfolding raise
    Keeps-raise e = record { at = Grows-refl }

    pub Keeps-lift : (r : Except LedgerError A) → Keeps (lift r)
    unfolding lift
    Keeps-lift r = record { at = Grows-refl }

    pub Keeps-gets : (f : Ledger → A) → Keeps (gets f)
    unfolding gets
    Keeps-gets f = record { at = Grows-refl }

    pub Keeps-or_raise : (o : Option A) (e : LedgerError) → Keeps (or_raise o e)
    Keeps-or_raise none e = Keeps-raise e
    Keeps-or_raise (some a) e = Keeps-pure a

    pub Keeps-if : (b : Bool) (m n : Action A) → Keeps m → Keeps n → Keeps (if b then m else n)
    Keeps-if true m n k l = k
    Keeps-if false m n k l = l

  pub Keeps-raise_when : (b : Bool) (e : LedgerError) → Keeps (raise_when b e)
  Keeps-raise_when true e = Keeps-raise e
  Keeps-raise_when false e = Keeps-pure tt

  module _ {A B : Type 0} where
    pub Keeps-maybe :
        (m : Action B) (f : A → Action B) (o : Option A)
        → Keeps m
        → ((a : A) → Keeps (f a))
        → Keeps (maybe m f o)
    Keeps-maybe m f none k l = k
    Keeps-maybe m f (some a) k l = l a

    continues :
        (r : Except LedgerError A) (f : A → Action B) (s t : Session)
        → Grows s t
        → ((a : A) → Keeps (f a))
        → Grows s ((lift r >>= f) t).1
    unfolding ◌>>=◌
    continues (ok a) f s t g k = Grows-trans g ((k a).at t)
    continues (err e) f s t g k = g

    pub Keeps-bind :
        (m : Action A) (f : A → Action B) → Keeps m → ((a : A) → Keeps (f a)) → Keeps (m >>= f)
    unfolding ◌>>=◌
    Keeps-bind m f k l = record { at = λ s. continues (m s).0 f s (m s).1 (k.at s) l }

  IsLawful-mono :
      {l m : Ledger} (e : Event)
      → ((id : String) → object_exists l id ≡ true → object_exists m id ≡ true)
      → IsLawful l e
      → IsLawful m e
  IsLawful-mono {l} {m} e stay h = record {
    permitted = h.permitted;
    declared = h.declared;
    supplied = h.supplied;
    contracted = h.contracted;
    source = h.source;
    known = known_mono e.evidence_object_id h.known;
  }
    where
      known_mono : (o : Option String) → evidence_known o l ≡ true → evidence_known o m ≡ true
      known_mono none k = refl
      known_mono (some id) k = stay id k

  pub All-IsLawful-mono :
      (l m : Ledger) (es : List Event)
      → ((id : String) → object_exists l id ≡ true → object_exists m id ≡ true)
      → All (IsLawful l) es
      → All (IsLawful m) es
  All-IsLawful-mono l m [] stay h = tt
  All-IsLawful-mono l m (e ∷ es) stay (x, h) =
      (IsLawful-mono e stay x, All-IsLawful-mono l m es stay h)

  -- A write to the other tables that keeps every object.
  pub Keeps-modify :
      (f : Ledger → Ledger)
      → ((l : Ledger) → (f l).events ≡ l.events)
      → ((l : Ledger) (id : String) → object_exists l id ≡ true → object_exists (f l) id ≡ true)
      → Keeps (modify f)
  unfolding modify
  Keeps-modify f same stay = record {
    at = λ s. record {
      objects_stay = stay s.ledger;
      same_envelope = refl;
      from_head = λ h. record {
        added = [];
        extended = same s.ledger;
        authored = tt;
        at_head = moved s h (ap (map (event_from_row host)) (same s.ledger));
      };
    };
  }
    where
      moved :
          (s : Session)
          → IsAtHead s
          → history (f s.ledger) ≡ history s.ledger
          → IsAtHead (record s { ledger = f s.ledger })
      moved s h q = record {
        sound = record {
          chain = subst (IsChain host) (sym q) h.sound.chain;
          lawful = subst (All (IsLawful (f s.ledger))) (sym q) (
              All-IsLawful-mono s.ledger (f s.ledger) (history s.ledger) (stay s.ledger)
                h.sound.lawful);
        };
        numbered = h.numbered ∙ ap (λ es. suc (head_id es)) (sym q);
        linked = h.linked ∙ ap head_hash (sym q);
      }
