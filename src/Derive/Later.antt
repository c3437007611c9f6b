-- ===== src/Derive/Later.antt =====
-- What new events change in derived state (ledger/derive.py, ledger/store.py `Ledger.events`).
use mathlib.Core.List.{map-append, reverse-append, append-nil}
use lean_evolve.Prelude.{
  ℕ, String, ◌≡◌, ◌≢◌, refl, sym, ap, subst, ◌∙◌, inl, inr, Bool, true, false, ◌&&◌, ◌==◌, eq_iff,
  Option, none, some, List, [], ◌∷◌, ◌++◌, map, reverse, select, Member, Member-reverse, Member-map,
  map-Member, Member-left, Member-select, All-Member, Bool-cases, arith,
}
use lean_evolve.Value.{Host}
use lean_evolve.Vocabulary.Authority.{evaluator_actions-authorize}
use lean_evolve.Events.{Envelope, Event, EventRow, event_from_row}
use lean_evolve.Store.Tables.{Ledger, events_of, in_query}
use lean_evolve.Store.Exec.{Action, Session}
use lean_evolve.Store.Growth.{IsBy, IsLawful, history}
use lean_evolve.Store.Last.{IsLast}
use lean_evolve.Store.Block.{Uses}
use lean_evolve.Store.Transaction.{write}
use lean_evolve.Store.Soundness.{Continues, Reachable, Reachable-IsSound, write-Continues}
use lean_evolve.Derive.{proved_step, proved_from, is_proved, truth_of}
use lean_evolve.Derive.Dimension.{proved_from-append}
use lean_evolve.Derive.Truth.{proved_step_cases}
use lean_evolve.Derive.Trust.{three_proved}

select-append :
    {A : Type 0} (test : A → Bool) (xs ys : List A)
    → select test (xs ++ ys) ≡ select test xs ++ select test ys
select-append test [] ys = refl
select-append test (x ∷ xs) ys = elim (Bool-cases (test x)) [
  | inl keep ↦ rw keep (ap (λ zs. x ∷ zs) (select-append test xs ys))
  | inr drop ↦ rw drop (select-append test xs ys)
]

module _ (host : Host) where
  -- The events of new rows that a query returns, oldest first.
  abbrev pub news : Option String → Option ℕ → List EventRow → List Event
  news subject_id until rows =
      reverse (map (event_from_row host) (select (in_query subject_id until) rows))

  pub events_of-later :
      (l m : Ledger) (added : List EventRow) (subject_id : Option String) (until : Option ℕ)
      → m.events ≡ added ++ l.events
      → events_of host m subject_id until
        ≡ events_of host l subject_id until ++ news subject_id until added
  unfolding events_of
  events_of-later l m added subject_id until h =
      let query = in_query subject_id until in
      let read = event_from_row host in
      ap (news subject_id until) h
      ∙ ap (λ rows. reverse (map read rows)) (select-append query added l.events)
      ∙ ap reverse (map-append read (select query added) (select query l.events))
      ∙ reverse-append (map read (select query added)) (map read (select query l.events))

  -- An event of the news comes from a row that was added.
  pub news-Member :
      (subject_id : Option String) (until : Option ℕ) (rows : List EventRow) (e : Event)
      → Member e (news subject_id until rows)
      → (row : EventRow) × Member row rows × (e ≡ event_from_row host row)
  news-Member subject_id until rows e m =
      let query = in_query subject_id until in
      let (row, n, q) =
        Member-map (event_from_row host) e (select query rows) (Member-reverse e _ m) in
      (row, (Member-select row query rows n).0, q)

  actor_of : (row : EventRow) → (event_from_row host row).actor_class ≡ row.actor_class
  unfolding event_from_row
  actor_of row = refl

  -- In a sound ledger an actor other than the evaluator adds no certificate.
  uncertified :
      (envelope : Envelope) (l m : Ledger) (c : Continues host envelope l m) (row : EventRow)
      → envelope.actor_class ≢ "authoritative_evaluator"
      → Member row c.added
      → (event_from_row host row).action ≢ "kernel_certified"
  uncertified envelope l m c row other n q =
      let e = event_from_row host row in
      let here =
        subst (λ rows. Member e (map (event_from_row host) rows)) (sym c.extended)
          (map-Member (event_from_row host) row _ (Member-left row c.added _ n)) in
      let law = All-Member (IsLawful host m) e (history host m) c.sound.lawful here in
      other (
        sym (All-Member (IsBy host envelope) row c.added c.authored n)
        ∙ sym (actor_of row)
        ∙ evaluator_actions-authorize e.actor_class e.action (inl q) law.permitted)

proved_before :
    (b : Bool) (es : List Event)
    → ((e : Event) → Member e es → e.action ≢ "kernel_certified")
    → proved_from b es ≡ true
    → b ≡ true
unfolding proved_from
proved_before b [] h p = p
proved_before b (e ∷ es) h p =
    elim (proved_step_cases b e (proved_before (proved_step b e) es (λ x m. h x (inr m)) p)) [
      | inl q ↦ absurd (h e (inl refl) q)
      | inr (old, _) ↦ old
    ]

and_true : (a : Bool) → a ≡ true → (a && true) ≡ true
and_true a h = ground arith

and_false : (a : Bool) → a ≡ false → (a && true) ≡ false
and_false a h = ground arith

differs : (a b : String) → a ≢ b → (a == b) ≡ false
differs a b h = ground (arith, eq_iff a b)

is_proved-before :
    (before after : List Event)
    → ((e : Event) → Member e after → e.action ≢ "kernel_certified")
    → is_proved (before ++ after) ≡ true
    → is_proved before ≡ true
unfolding is_proved
is_proved-before before after new p =
    proved_before _ after new (sym (proved_from-append false before after) ∙ p)

module _ (host : Host) where
  -- Whatever a write session of another actor than the authoritative evaluator does, and whether it
  -- commits or rolls back, an object that counts as proved after it counted as proved before it.
  pub truth_of-write :
      {A : Type 0} (envelope : Envelope) (clock : ℕ → String) (block : Action A) (l : Ledger)
      (object_id : String)
      → Reachable host l
      → Uses host A block
      → envelope.actor_class ≢ "authoritative_evaluator"
      → truth_of host (write host envelope clock block l).1 object_id none ≡ "proved"
      → truth_of host l object_id none ≡ "proved"
  unfolding truth_of
  truth_of-write envelope clock block l object_id r u other h =
      let m = (write host envelope clock block l).1 in
      let c = write-Continues host envelope clock block l u (Reachable-IsSound host r) in
      let before = events_of host l (some object_id) none in
      let after = news host (some object_id) none c.added in
      let split = events_of-later host l m c.added (some object_id) none c.extended in
      let joined : is_proved (before ++ after) ≡ true =
        ap is_proved (sym split) ∙ three_proved _ _ h in
      rw
        (is_proved-before before after
          (λ e n.
            let (row, k, q) = news-Member host (some object_id) none c.added e n in
            subst (λ (x : Event). x.action ≢ "kernel_certified") (sym q)
              (uncertified host envelope l m c row other k))
          joined)
        refl

  subject_of : (row : EventRow) → (event_from_row host row).subject_id ≡ row.subject_id
  unfolding event_from_row
  subject_of row = refl

  module _ {action subject : String} {e : Event} {s t : Session}
      (last : IsLast host action subject e s t) where
    row_subject : last.row.subject_id ≡ subject
    row_subject =
        sym (subject_of last.row) ∙ ap (λ (x : Event). x.subject_id) last.reads ∙ last.subject

    -- The last event stands behind the others of its subject.
    pub events_of-IsLast :
        events_of host t.ledger (some subject) none
        ≡ events_of host s.ledger (some subject) none ++ e ∷ []
    events_of-IsLast =
        let hit : (last.row.subject_id == subject && true) ≡ true =
          and_true _ ((eq_iff last.row.subject_id subject).1 row_subject) in
        events_of-later host s.ledger t.ledger (last.row ∷ []) (some subject) none last.on_top
        ∙ ap (λ es. events_of host s.ledger (some subject) none ++ es)
            (rw hit (ap (λ x. x ∷ []) last.reads))

    -- It changes nothing for another subject.
    pub events_of-other :
        (id : String)
        → id ≢ subject
        → events_of host t.ledger (some id) none ≡ events_of host s.ledger (some id) none
    events_of-other id other =
        let miss : (last.row.subject_id == id && true) ≡ false =
          and_false _ (differs last.row.subject_id id (λ q. other (sym q ∙ row_subject))) in
        events_of-later host s.ledger t.ledger (last.row ∷ []) (some id) none last.on_top
        ∙ ap (λ es. events_of host s.ledger (some id) none ++ es) (rw miss refl)
        ∙ append-nil _
