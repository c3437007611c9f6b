-- ===== src/Queue/Reconciled.antt =====
-- What `reconcile` of ledger/queue.py leaves.
use lean_evolve.Prelude.{
  String, ◌≡◌, ◌≢◌, refl, sym, ap, subst, ◌∙◌, ◌⊎◌, inl, inr, Bool, true, false, Option, none, some,
  List, [], ◌∷◌, Member, map, select, ◌==◌, Except, ok, arith, eq_iff, Bool-cases, Except-cases,
  some_inj, ok-injective, if◌then◌else◌,
}
use lean_evolve.Events.{Event}
use lean_evolve.Store.Tables.{
  Ledger, ObjectRecord, ObjectRow, objects, object_from_row, passes, events_of,
}
use lean_evolve.Store.Exec.{Session}
use lean_evolve.Store.Session.{record_event}
use lean_evolve.Store.Growth.{IsAtHead}
use lean_evolve.Store.History.{Keeps-record_event}
use lean_evolve.Store.Last.{record_event-IsLast}
use lean_evolve.Store.Edges.View.{>>=-returns as act-returns}
use lean_evolve.Store.Transaction.{begin}
use lean_evolve.Store.Soundness.{Reachable, Reachable-IsSound, begin-IsAtHead}
use lean_evolve.Derive.{operational, operational_from, operational_step, state_of}
use lean_evolve.Derive.Dimension.{operational_from-append}
use lean_evolve.Derive.Trust.{texts_differ}
use lean_evolve.Derive.Later.{events_of-IsLast, events_of-other}
use lean_evolve.Queue.Exec.{QueueError, DurableCheckQueue, State, look, give, transact}
use lean_evolve.Queue.Jobs.{in_scope, scope}
use lean_evolve.Queue.Blocks.{interrupted, recovered, reconcile_block}
use lean_evolve.Queue.Moves.{
  has_key, is_running, running_now, interrupt_running, reconcile_all, reconcile,
}
use lean_evolve.Queue.Read.{state_of-operational}
use lean_evolve.Queue.Harmless.{branch-Harmless}
use lean_evolve.Queue.Machine.{progress, >>=-returns, transact-returns, progress-IsLast}

module _ (q : DurableCheckQueue) where
  -- The objects are the same, and a check is where it was, or interrupted.
  pub record Interrupts (l m : Ledger) : Type 0 where
    pub same_objects : m.objects ≡ l.objects
    pub moved :
        (id : String) → (progress q id m ≡ progress q id l) ⊎ (progress q id m ≡ some "interrupted")

  Interrupts-refl : (l : Ledger) → Interrupts l l
  Interrupts-refl l = record { same_objects = refl; moved = λ id. inl refl }

  Interrupts-trans : {l m n : Ledger} → Interrupts l m → Interrupts m n → Interrupts l n
  Interrupts-trans g h = record {
    same_objects = h.same_objects ∙ g.same_objects;
    moved = λ id. elim (h.moved id) [
      | inr e ↦ inr e
      | inl e ↦ elim (g.moved id) [ inl f ↦ inl (e ∙ f) | inr f ↦ inr (e ∙ f) ]
    ];
  }

  -- An event that is no operational one leaves the state of its subject.
  unreported :
      (s : Option String) (e : Event)
      → e.action ≡ "recovery_recorded"
      → operational_from s (e ∷ []) ≡ s
  unfolding operational_from operational_step
  unreported s e h = rw h refl

  reconcile_block-returns :
      (id : String) (s t : Session) (e : Event)
      → IsAtHead q.host s
      → reconcile_block q id s ≡ (ok e, t)
      → (progress q id t.ledger ≡ some "interrupted") × Interrupts s.ledger t.ledger
  unfolding reconcile_block operational
  reconcile_block-returns id s t e h ran =
      let first = record_event q.host (interrupted q id "worker_startup") in
      let (e1, ran1, ran2) = act-returns first _ s ran in
      let u = (first s).1 in
      let at_u = (((Keeps-record_event q.host _).at s).from_head h).at_head in
      let l1 = record_event-IsLast q.host _ s u e1 refl h (λ i. (ran1 i, u)) in
      let l2 = record_event-IsLast q.host (recovered q id) u t e refl at_u ran2 in
      let here : progress q id t.ledger ≡ some "interrupted" =
        ap operational (events_of-IsLast q.host l2)
        ∙ operational_from-append none (events_of q.host u.ledger (some id) none) (e ∷ [])
        ∙ unreported _ e l2.action
        ∙ progress-IsLast q l1 refl in
      (
        here,
        record {
          same_objects = l2.same_objects ∙ l1.same_objects;
          moved = λ other. elim (Bool-cases (other == id)) [
            | inl same ↦ inr (ap (λ i. progress q i t.ledger) ((eq_iff other id).0 same) ∙ here)
            | inr differs ↦
                let k = λ (p : other ≡ id). absurd (cc ((eq_iff other id).1 p, differs)) in
                inl (
                  ap operational
                    (events_of-other q.host l2 other k ∙ events_of-other q.host l1 other k))
          ];
        },
      )

  interrupt_running-returns :
      (id : String) (s t : State)
      → Reachable q.host s.ledger
      → interrupt_running q id s ≡ (ok tt, t)
      → (progress q id t.ledger ≡ some "interrupted") × Interrupts s.ledger t.ledger
  unfolding interrupt_running look give begin
  interrupt_running-returns id s t r ran =
      let envelope =
        in_scope "ledger_service" "tool:check-reconciliation-v1" (scope q id s.ledger) in
      let m = transact q envelope (reconcile_block q id) in
      let (e, wrote, end) = >>=-returns m (λ _. give tt) s ran in
      let (u, blocked, same) =
        transact-returns q envelope (reconcile_block q id) s (m s).1 e (λ i. (wrote i, (m s).1)) in
      let opened = begin q.host s.ledger envelope q.clock in
      let (at_end, moved) =
        reconcile_block-returns id opened u e
          (begin-IsAtHead q.host s.ledger envelope q.clock (Reachable-IsSound q.host r)) blocked in
      let last : u.ledger ≡ t.ledger =
        sym same ∙ ap (λ (p : Except QueueError (Unit {0}) × State). p.1.ledger) end in
      (ap (progress q id) (sym last) ∙ at_end, subst (Interrupts s.ledger) last moved)

  running_now-returns :
      (key : Option String) (o : ObjectRecord) (l : Ledger) (b : Bool)
      → running_now q key o l ≡ ok b
      → has_key q key o ≡ true
      → is_running q (progress q o.id l) ≡ b
  unfolding running_now
  running_now-returns key o l b h k = elim (Except-cases (state_of q.host l o.id none)) [
    | inl (s, derived) ↦
        ap (is_running q) (sym (state_of-operational q.host l o.id s derived))
        ∙ ok-injective (rw (k, derived) at h)
    | inr (e, raised) ↦ absurd (ground (arith, rw (k, raised) at h))
  ]

  -- The state is not `running`.
  abbrev pub Stopped : String → Ledger → Type 0
  Stopped id l = progress q id l ≢ some "running"

  Stopped-later : (id : String) (l m : Ledger) → Interrupts l m → Stopped id l → Stopped id m
  Stopped-later id l m g h k = elim (g.moved id) [
    | inl e ↦ h (sym e ∙ k)
    | inr e ↦ texts_differ "interrupted" "running" refl (some_inj (sym e ∙ k))
  ]

  Stopped-progress :
      (id : String) (l : Ledger) → progress q id l ≡ some "interrupted" → Stopped id l
  Stopped-progress id l e k = texts_differ "interrupted" "running" refl (some_inj (sym e ∙ k))

  not_running : (o : Option String) → is_running q o ≡ false → o ≢ some "running"
  not_running o h k = cc (sym h ∙ ap (is_running q) k)

  branch-returns :
      (running : Bool) (o : ObjectRecord) (s t : State)
      → Reachable q.host s.ledger
      → (if running then interrupt_running q o.id else give tt) s ≡ (ok tt, t)
      → Interrupts s.ledger t.ledger × (running ≡ true → Stopped o.id t.ledger)
  unfolding give
  branch-returns true o s t r h =
      let (e, g) = interrupt_running-returns o.id s t r h in
      (g, λ _. Stopped-progress o.id t.ledger e)
  branch-returns false o s t r h = (
    subst (λ (x : State). Interrupts s.ledger x.ledger)
        (ap (λ (p : Except QueueError (Unit {0}) × State). p.1) h) (Interrupts-refl s.ledger),
    λ k. absurd (cc k),
  )

  reconcile_all-returns :
      (key : Option String) (os : List ObjectRecord) (s t : State) (ids : List String)
      → Reachable q.host s.ledger
      → reconcile_all q key os s ≡ (ok ids, t)
      → Interrupts s.ledger t.ledger
        × ((o : ObjectRecord) → Member o os → has_key q key o ≡ true → Stopped o.id t.ledger)
  unfolding reconcile_all give look
  reconcile_all-returns key [] s t ids r h = (
    subst (λ (x : State). Interrupts s.ledger x.ledger)
        (ap (λ (p : Except QueueError (List String) × State). p.1) h) (Interrupts-refl s.ledger),
    λ o m k. absurd m,
  )
  reconcile_all-returns key (o ∷ os) s t ids r h =
      let (running, read, h1) = >>=-returns (look (running_now q key o)) _ s h in
      let m1 = if running then interrupt_running q o.id else give tt in
      let (_, ran1, h2) = >>=-returns m1 _ s h1 in
      let u = (m1 s).1 in
      let (g1, stopped) = branch-returns running o s u r (λ i. (ran1 i, u)) in
      let m2 = reconcile_all q key os in
      let (rest, ran2, h3) = >>=-returns m2 _ u h2 in
      let v = (m2 u).1 in
      let r1 = ((branch-Harmless q running o).at s r).reachable in
      let (g2, others) = reconcile_all-returns key os u v rest r1 (λ i. (ran2 i, v)) in
      let end = ap (λ (p : Except QueueError (List String) × State). p.1) h3 in
      (
        subst (λ (x : State). Interrupts s.ledger x.ledger) end (Interrupts-trans g1 g2),
        λ o' m k.
            subst (λ (x : State). Stopped o'.id x.ledger) end
              (elim m [
                | inr n ↦ others o' n k
                | inl e ↦
                    let here = subst (λ (x : ObjectRecord). has_key q key x ≡ true) e k in
                    let still : Stopped o.id u.ledger = elim (Bool-cases running) [
                      | inl yes_ ↦ stopped yes_
                      | inr no_ ↦ Stopped-later o.id s.ledger u.ledger g1 (
                          not_running _
                            (running_now-returns key o s.ledger running read here ∙ no_))
                    ] in
                    subst (λ (x : ObjectRecord). Stopped x.id v.ledger) (sym e)
                      (Stopped-later o.id u.ledger v.ledger g2 still)
              ]),
      )

  -- When `reconcile` returns, no check with the key (no check at all, without a key) is running any
  -- more. It leaves the objects alone, and every check is in the state in which it was, or interrupted.
  pub reconcile-Stopped :
      (key : Option String) (s t : State) (ids : List String)
      → Reachable q.host s.ledger
      → reconcile q key s ≡ (ok ids, t)
      → Interrupts s.ledger t.ledger
        × ((o : ObjectRecord)
            → Member o (objects q.host t.ledger (some "check"))
            → has_key q key o ≡ true
            → Stopped o.id t.ledger)
  unfolding reconcile look objects
  reconcile-Stopped key s t ids r h =
      let os = objects q.host s.ledger (some "check") in
      let (g, stopped) = reconcile_all-returns key os s t ids r h in
      (g, λ o m k. stopped o (subst (Member o) (checks g.same_objects) m) k)
    where
      checks :
          t.ledger.objects ≡ s.ledger.objects
          → objects q.host t.ledger (some "check") ≡ objects q.host s.ledger (some "check")
      checks e =
          ap
            (λ (rows : List ObjectRow).
              map (object_from_row q.host)
                (select (λ (o : ObjectRow). passes (some "check") o.kind) rows))
            e
