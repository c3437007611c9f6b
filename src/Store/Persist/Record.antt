-- ===== src/Store/Persist/Record.antt =====
-- The steps of a session that write (ledger/store.py): an event, an object, a row of another table.
use lean_evolve.Prelude.{
  String, ◌≡◌, refl, sym, ap, subst, ◌∙◌, inl, inr, Bool, true, false, Option, none, some, List, [],
  ◌∷◌, find, find-Member, any, maybe, Member, ltb, ◌==◌, Except, Bool-cases, Option-cases, some_inj,
  arith, eq_iff,
}
use Prim.Native.String.{compare}
use text.Mathlib.Text.{is_lt}
use lean_evolve.Value.{Host}
use lean_evolve.Events.{Draft, Event, EventRow, event_from_row}
use lean_evolve.Store.Tables.{
  Ledger, ObjectRow, text_is, clashes, place_event, place_object, object_from_row, object,
  event_by_key,
}
use lean_evolve.Store.Exec.{LedgerError, Session, modify}
use lean_evolve.Store.Session.{record_event}
use lean_evolve.Store.Append.{Recorded, failed, appended, found, record_event-Recorded}
use lean_evolve.Store.Persist.{Persists, Persists-refl, Stays}

any-none :
    {A : Type 0} (test : A → Bool) (xs : List A) (x : A)
    → any test xs ≡ false
    → Member x xs
    → test x ≡ false
any-none test [] x h m = absurd m
any-none test (y ∷ ys) x h (inl e) = ap test e ∙ ground (arith, h)
any-none test (y ∷ ys) x h (inr m) = any-none test ys x (ground (arith, h)) m

-- Two rows with one key clash.
clashes-key :
    (key : String) (r x : EventRow)
    → text_is r.idempotency_key key ≡ true
    → text_is x.idempotency_key key ≡ true
    → clashes r x ≡ true
unfolding clashes
clashes-key key r x h k = one_key r.idempotency_key x.idempotency_key refl refl h k
  where
    one_key :
        (a b : Option String)
        → r.idempotency_key ≡ a
        → x.idempotency_key ≡ b
        → text_is a key ≡ true
        → text_is b key ≡ true
        → clashes r x ≡ true
    one_key none b p q h k = absurd (ground arith)
    one_key (some a) none p q h k = absurd (ground (arith, k))
    one_key (some a) (some b) p q h k =
        let same : (a == b) ≡ true =
          (eq_iff a b).1 ((eq_iff a key).0 h ∙ sym ((eq_iff b key).0 k)) in
        rw (p, q) (ground (arith, same))

find-place_event :
    (test : EventRow → Bool) (r : EventRow) (rows : List EventRow)
    → test r ≡ false
    → find test (place_event r rows) ≡ find test rows
unfolding place_event
find-place_event test r [] h = rw h refl
find-place_event test r (x ∷ xs) h = elim (Bool-cases (ltb r.id x.id)) [
  | inr front ↦ rw (front, h) refl
  | inl behind ↦ rw behind (elim (Bool-cases (test x)) [
    | inl hit ↦ rw hit refl
    | inr miss ↦ rw miss (find-place_event test r xs h)
  ])
]

-- A row whose insertion the constraints allow hides no key.
by_key-place_event :
    (key : String) (r x : EventRow) (rows : List EventRow)
    → any (clashes r) rows ≡ false
    → find (λ (y : EventRow). text_is y.idempotency_key key) rows ≡ some x
    → find (λ (y : EventRow). text_is y.idempotency_key key) (place_event r rows) ≡ some x
by_key-place_event key r x rows fresh seen =
    let test = λ (y : EventRow). text_is y.idempotency_key key in
    let (m, with_key) = find-Member test rows x seen in
    elim (Bool-cases (text_is r.idempotency_key key)) [
      | inr other ↦ find-place_event test r rows other ∙ seen
      | inl same ↦
          let clash = clashes-key key r x same with_key in
          let apart = any-none (clashes r) rows x fresh m in absurd (ground (arith, clash, apart))
    ]

find-place_object :
    (test : ObjectRow → Bool) (r : ObjectRow) (rows : List ObjectRow)
    → test r ≡ false
    → find test (place_object r rows) ≡ find test rows
unfolding place_object
find-place_object test r [] h = rw h refl
find-place_object test r (x ∷ xs) h = elim (Bool-cases (is_lt (compare r.id x.id))) [
  | inl front ↦ rw (front, h) refl
  | inr behind ↦ rw behind (elim (Bool-cases (test x)) [
    | inl hit ↦ rw hit refl
    | inr miss ↦ rw miss (find-place_object test r xs h)
  ])
]

module _ (host : Host) where
  found_event :
      (l : Ledger) (key : String) (e : Event)
      → event_by_key host l key ≡ some e
      → (x : EventRow) × (find (λ (y : EventRow). text_is y.idempotency_key key) l.events ≡ some x)
        × (event_from_row host x ≡ e)
  unfolding event_by_key
  found_event l key e h =
      elim (Option-cases (find (λ (y : EventRow). text_is y.idempotency_key key) l.events)) [
        | inl absent ↦ absurd (ground (arith, rw absent at h))
        | inr (x, seen) ↦ (x, seen, some_inj (rw seen at h))
      ]

  event_found :
      (l : Ledger) (key : String) (x : EventRow)
      → find (λ (y : EventRow). text_is y.idempotency_key key) l.events ≡ some x
      → event_by_key host l key ≡ some (event_from_row host x)
  unfolding event_by_key
  event_found l key x seen = rw seen refl

  -- A write that leaves events and objects alone.
  pub Persists-same :
      (l m : Ledger) → m.events ≡ l.events → m.objects ≡ l.objects → Persists host l m
  unfolding object event_by_key
  Persists-same l m events objects = record {
    objects_kept = λ id o h.
        ap
          (λ (rows : List ObjectRow).
            maybe none (λ (x : ObjectRow). some (object_from_row host x))
              (find (λ (x : ObjectRow). x.id == id) rows))
          objects
        ∙ h;
    keys_kept = λ key e h.
        ap
          (λ (rows : List EventRow).
            maybe none (λ (x : EventRow). some (event_from_row host x))
              (find (λ (x : EventRow). text_is x.idempotency_key key) rows))
          events
        ∙ h;
  }

  pub Stays-modify :
      (f : Ledger → Ledger)
      → ((l : Ledger) → (f l).events ≡ l.events)
      → ((l : Ledger) → (f l).objects ≡ l.objects)
      → Stays host (modify f)
  unfolding modify
  Stays-modify f events objects = record {
    at = λ s. Persists-same s.ledger (f s.ledger) (events s.ledger) (objects s.ledger);
  }

  Recorded-Persists :
      {draft : Draft} {s t : Session} {r : Except LedgerError Event}
      → Recorded host draft s r t
      → Persists host s.ledger t.ledger
  unfolding object
  Recorded-Persists {s = s} (failed e) =
      subst (λ (x : Session). Persists host s.ledger x.ledger) (sym e) (Persists-refl host s.ledger)
  Recorded-Persists {s = s} (found k e) =
      subst (λ (x : Session). Persists host s.ledger x.ledger) (sym e) (Persists-refl host s.ledger)
  Recorded-Persists {s = s} (appended a) =
      subst (λ (x : Session). Persists host s.ledger x.ledger) (sym a.moved)
        (record {
          objects_kept = λ id o h. h;
          keys_kept = λ key e h.
              let (x, seen, same) = found_event s.ledger key e h in
              event_found _ key x (by_key-place_event key a.row x s.ledger.events a.fresh seen)
              ∙ ap some same;
        })

  pub Stays-record_event : (draft : Draft) → Stays host (record_event host draft)
  Stays-record_event draft = record {
    at = λ s. Recorded-Persists (record_event-Recorded host draft s);
  }

  Recorded-objects :
      {draft : Draft} {s t : Session} {r : Except LedgerError Event}
      → Recorded host draft s r t
      → t.ledger.objects ≡ s.ledger.objects
  Recorded-objects (failed e) = ap (λ (x : Session). x.ledger.objects) e
  Recorded-objects (found k e) = ap (λ (x : Session). x.ledger.objects) e
  Recorded-objects (appended a) = ap (λ (x : Session). x.ledger.objects) a.moved

  pub record_event-objects :
      (draft : Draft) (s : Session)
      → (record_event host draft s).1.ledger.objects ≡ s.ledger.objects
  record_event-objects draft s = Recorded-objects (record_event-Recorded host draft s)

  -- A row for an id that no object has hides no object.
  pub place_object-Persists :
      (r : ObjectRow) (l : Ledger)
      → object host l r.id ≡ none
      → Persists host l (record l { objects = place_object r l.objects })
  unfolding object event_by_key
  place_object-Persists r l absent = record {
    objects_kept = λ id o h. elim (Bool-cases (r.id == id)) [
      | inl same ↦
          absurd
            (ground (arith, sym h ∙ ap (object host l) (sym ((eq_iff r.id id).0 same)) ∙ absent))
      | inr other ↦
          ap (λ found. maybe none (λ (x : ObjectRow). some (object_from_row host x)) found)
            (find-place_object (λ (x : ObjectRow). x.id == id) r l.objects other)
          ∙ h
    ];
    keys_kept = λ key e h. h;
  }
