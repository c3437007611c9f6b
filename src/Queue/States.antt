-- ===== src/Queue/States.antt =====
-- The state in which each method of ledger/queue.py leaves its check.
use lean_evolve.Prelude.{
  ℕ, String, ◌≡◌, refl, subst, sym, Bool, true, false, Option, none, some, List, Except, ◌==◌, ok,
  map, reverse, [], if◌then◌else◌, some_inj, not, eq_iff, arith, ◌∙◌,
}
use lean_evolve.Value.{empty, Host}
use lean_evolve.Events.{Envelope}
use lean_evolve.Store.Session.{record_event}
use lean_evolve.Store.Exec.{LedgerError, Action, lift}
use lean_evolve.Store.Block.{Uses-lift, Uses-connect}
use lean_evolve.Store.Soundness.{Reachable, Uses-Keeps}
use lean_evolve.Store.History.{Keeps-record_event}
use lean_evolve.Store.Last.{Ends, Ends-record_event, Ends-after, Ends-before}
use lean_evolve.Artifacts.Files.{Bytes, StoredArtifact}
use lean_evolve.Derive.{table_get, operational_events}
use lean_evolve.Store.Tables.{Ledger}
use lean_evolve.Queue.Read.{from_record-IsJob}
use lean_evolve.Queue.Blocks.{started, cancelled, timed_out, interrupted, superseded}
use lean_evolve.Queue.Exec.{
  QueueError, DurableCheckQueue, State, Method, not_queued, not_running, refuse_when, look, ◌>>=◌,
  ◌>>◌, transact, transact_storing,
}
use lean_evolve.Queue.Jobs.{CheckJob, or_queued, from_record}
use lean_evolve.Queue.Results.{
  Outcome, completed, failed_draft, result_registration, succeed, fail, complete_block,
}
use lean_evolve.Queue.Moves.{start, cancel, time_out, interrupt, supersede}
use lean_evolve.Queue.Complete.{complete}
use lean_evolve.Queue.Calls.{Call, call}
use lean_evolve.Queue.Used.{register_stored-Uses, enter_claims-Uses, connect_all-Uses}
use lean_evolve.Queue.Machine.{
  progress, >>=-returns, Turns, Unmoved-look, Unmoved-give, Unmoved-refuse_when, Turns-transact,
  Turns-storing, Turns-after, Turns-before,
}

Ends-if :
    (host : Host) {A : Type 0} (b : Bool) {x y job_id : String} (m n : Action A)
    → Ends host x job_id m
    → Ends host y job_id n
    → Ends host (if b then x else y) job_id (if b then m else n)
Ends-if host true m n k l = k
Ends-if host false m n k l = l

module _ (q : DurableCheckQueue) where
  succeed-Ends :
      (job : CheckJob) (goals : List String) (r : Outcome) (evidence : String)
      → Ends q.host "check_completed" job.id (succeed q job goals r evidence)
  unfolding succeed
  succeed-Ends job goals r evidence = Ends-after q.host _ _ _ _ (Keeps-record_event q.host _) (λ _.
      Ends-after q.host _ _ _ _
        (Uses-Keeps q.host _ (enter_claims-Uses q job goals evidence r.declarations))
        (λ entered.
          Ends-after q.host _ _ _ _
            (Uses-Keeps q.host _ (connect_all-Uses q (reverse entered) r.declarations))
            (λ _.
              Ends-before q.host _ _ _ (λ _. map (λ p. p.1) entered)
                (Ends-record_event q.host (completed q job.id r evidence) refl))))

  fail-Ends : (job : CheckJob) (r : Outcome) → Ends q.host "check_failed" job.id (fail q job r)
  unfolding fail
  fail-Ends job r = Ends-after q.host _ _ _ _ (Keeps-record_event q.host _) (λ _.
      Ends-before q.host _ _ _ (λ _. []) (Ends-record_event q.host (failed_draft q job.id r) refl))

  abbrev verdict : Outcome → String
  verdict r = if r.outcome == "success" then "check_completed" else "check_failed"

  complete_block-Ends :
      (job : CheckJob) (goals : List String) (r : Outcome) (put : Except LedgerError StoredArtifact)
      → Ends q.host (verdict r) job.id (complete_block q job goals r put)
  unfolding complete_block
  complete_block-Ends job goals r put =
      Ends-after q.host _ _ (lift put) _ (Uses-Keeps q.host _ (Uses-lift q.host put)) (λ kept.
        Ends-after q.host _ _ _ _
          (Uses-Keeps q.host _ (register_stored-Uses q.host kept (result_registration q job.id)))
          (λ _.
            Ends-after q.host _ _ _ _
              (Uses-Keeps q.host _
                (Uses-connect q.host kept.object_id "produced_by" job.id empty none))
              (λ _.
                Ends-before q.host _ _ _ (λ ids. (kept.object_id, ids))
                  (Ends-if q.host (r.outcome == "success") _ _
                    (succeed-Ends job goals r kept.object_id) (fail-Ends job r)))))

  -- The result of a read is what the code behind it gets.
  Turns-look :
      {A B : Type 0} {job_id state : String} (f : Ledger → Except QueueError A) (k : A → Method B)
      → ((a : A) (l : Ledger) → f l ≡ ok a → Turns q job_id state (k a))
      → Turns q job_id state (look f >>= k)
  unfolding look
  Turns-look f k h = record {
    at = λ s t b r w.
        let (a, read, rest) = >>=-returns (look f) k s w in (h a s.ledger read).at s t b r rest;
  }

  -- The state in which a call leaves its check, if the call records how it goes on.
  abbrev pub target : Call → Option (String × String)
  target (Call.start job_id worker_id queue_delay) = some (job_id, "running")
  target (Call.complete job_id r) =
      some (job_id, if r.outcome == "success" then "completed" else "failed")
  target (Call.cancel job_id reason) = some (job_id, "interrupted")
  target (Call.time_out job_id budget_seconds) = some (job_id, "timed_out")
  target (Call.interrupt job_id detected_by) = some (job_id, "interrupted")
  target (Call.supersede job_id newer_job_id) = some (job_id, "interrupted")
  target c = none

  module _ (envelope : Envelope) where
    started-Turns :
        (job_id worker_id : String) (delay : ℕ)
        → Turns q job_id "running"
            (transact q envelope (record_event q.host (started q job_id worker_id delay)))
    started-Turns job_id worker_id delay =
        Turns-transact q envelope _ refl
          (Ends-record_event q.host (started q job_id worker_id delay) refl)

    cancelled-Turns :
        (job_id reason : String)
        → Turns q job_id "interrupted"
            (transact q envelope (record_event q.host (cancelled q job_id reason)))
    cancelled-Turns job_id reason =
        Turns-transact q envelope _ refl (Ends-record_event q.host (cancelled q job_id reason) refl)

    timed_out-Turns :
        (job_id : String) (budget_seconds : ℕ)
        → Turns q job_id "timed_out"
            (transact q envelope (record_event q.host (timed_out q job_id budget_seconds)))
    timed_out-Turns job_id budget_seconds =
        Turns-transact q envelope _ refl
          (Ends-record_event q.host (timed_out q job_id budget_seconds) refl)

    interrupted-Turns :
        (job_id detected_by : String)
        → Turns q job_id "interrupted"
            (transact q envelope (record_event q.host (interrupted q job_id detected_by)))
    interrupted-Turns job_id detected_by =
        Turns-transact q envelope _ refl
          (Ends-record_event q.host (interrupted q job_id detected_by) refl)

    superseded-Turns :
        (job_id newer_job_id : String)
        → Turns q job_id "interrupted"
            (transact q envelope (record_event q.host (superseded q job_id newer_job_id)))
    superseded-Turns job_id newer_job_id =
        Turns-transact q envelope _ refl
          (Ends-record_event q.host (superseded q job_id newer_job_id) refl)

  known :
      (b : Bool)
      → table_get (if b then "check_completed" else "check_failed") operational_events
        ≡ some (if b then "completed" else "failed")
  known true = refl
  known false = refl

  result-Turns :
      (envelope : Envelope) (bytes : Bytes) (job_id : String) (job : CheckJob) (goals : List String)
      (r : Outcome)
      → job.id ≡ job_id
      → Turns q job_id
          (if r.outcome == "success" then "completed" else "failed")
          (transact_storing q envelope bytes (complete_block q job goals r))
  result-Turns envelope bytes job_id job goals r named =
      Turns-storing q envelope bytes (complete_block q job goals r) (known (r.outcome == "success"))
        (λ put.
          subst (λ i. Ends q.host (verdict r) i (complete_block q job goals r put)) named
            (complete_block-Ends job goals r put))

  ruleset turns = (
    Unmoved-look, Unmoved-give, Unmoved-refuse_when, Turns-after, Turns-before, started-Turns,
    cancelled-Turns, timed_out-Turns, interrupted-Turns, superseded-Turns, result-Turns,
  )

  complete-Turns :
      (job_id : String) (r : Outcome)
      → Turns q job_id
          (if r.outcome == "success" then "completed" else "failed")
          (complete q job_id r)
  unfolding complete
  complete-Turns job_id r = Turns-look (from_record q job_id) _ (λ job l read.
      let named = (from_record-IsJob q job_id l job read).named in search (turns, named) depth 16)

  -- A call of a method that records how a check goes on, up to the check and the state.
  turned :
      {m : Method (Unit {0})} (c : Call) {x y : String × String}
      → x ≡ y
      → Turns q x.0 x.1 m
      → Turns q y.0 y.1 m
  turned {m} c e k = subst (λ (p : String × String). Turns q p.0 p.1 m) e k

  call-Turns :
      (c : Call) (job_id state : String)
      → target c ≡ some (job_id, state)
      → Turns q job_id state (call q c)
  unfolding call start cancel time_out interrupt supersede
  call-Turns (Call.start id worker_id delay) job_id state h =
      turned (Call.start id worker_id delay) (some_inj h) (search turns depth 12)
  call-Turns (Call.complete id r) job_id state h =
      turned (Call.complete id r) (some_inj h)
        (Turns-before q (complete q id r) _ (complete-Turns id r) (λ _. Unmoved-give q tt))
  call-Turns (Call.cancel id reason) job_id state h =
      turned (Call.cancel id reason) (some_inj h) (search turns depth 12)
  call-Turns (Call.time_out id budget) job_id state h =
      turned (Call.time_out id budget) (some_inj h) (search turns depth 12)
  call-Turns (Call.interrupt id by) job_id state h =
      turned (Call.interrupt id by) (some_inj h) (search turns depth 12)
  call-Turns (Call.supersede id newer) job_id state h =
      turned (Call.supersede id newer) (some_inj h) (search turns depth 12)
  call-Turns (Call.submit a) job_id state h = absurd (ground (arith, h))
  call-Turns (Call.invalidate id reason) job_id state h = absurd (ground (arith, h))
  call-Turns (Call.reconcile key) job_id state h = absurd (ground (arith, h))

  -- What a call asks of the state of its check.
  abbrev pub Allowed : Call → Ledger → Type 0
  Allowed (Call.start job_id worker_id queue_delay) l = or_queued (progress q job_id l) ≡ "queued"
  Allowed (Call.complete job_id r) l = or_queued (progress q job_id l) ≡ "running"
  Allowed c l = Unit

  refuse_when-returns :
      (b : Bool) (e : QueueError) (s : State) → (refuse_when (not b) e s).0 ≡ ok tt → b ≡ true
  unfolding refuse_when
  refuse_when-returns true e s h = refl
  refuse_when-returns false e s h = absurd (ground (arith, h))

  guarded :
      {A : Type 0} (job_id state : String) (e : CheckJob → QueueError) (rest : CheckJob → Method A)
      (s t : State) (a : A)
      → (look (from_record q job_id) >>= λ job.
            refuse_when (not (job.state == state)) (e job) >> rest job)
          s
        ≡ (ok a, t)
      → or_queued (progress q job_id s.ledger) ≡ state
  unfolding look
  guarded job_id state e rest s t a h =
      let (job, read, h1) = >>=-returns (look (from_record q job_id)) _ s h in
      let (_, passed, _) = >>=-returns (refuse_when (not (job.state == state)) (e job)) _ s h1 in
      sym (from_record-IsJob q job_id s.ledger job read).state
      ∙ (eq_iff job.state state).0 (refuse_when-returns _ _ s passed)

  call-Allowed : (c : Call) (s t : State) → call q c s ≡ (ok tt, t) → Allowed c s.ledger
  unfolding call start complete
  call-Allowed (Call.start job_id worker_id delay) s t h =
      let m = start q job_id worker_id delay in
      let (job, ran, _) = >>=-returns m _ s h in
      guarded job_id "queued" (λ j. not_queued job_id j.state) _ s (m s).1 job
        (λ i. (ran i, (m s).1))
  call-Allowed (Call.complete job_id r) s t h =
      let m = complete q job_id r in
      let (result, ran, _) = >>=-returns m _ s h in
      guarded job_id "running" (λ j. not_running job_id j.state) _ s (m s).1 result
        (λ i. (ran i, (m s).1))
  call-Allowed _ s t h = tt

  -- A call that records how a check goes on and returns leaves the check in the state for it: running
  -- after a start, completed or failed after a result, timed out after a timeout, and interrupted after
  -- a cancellation, an interruption or a replacement. Only a queued check is started, and only a
  -- running one gets a result; the other calls ask nothing of the state.
  pub call-progress :
      (c : Call) (job_id state : String) (s t : State)
      → Reachable q.host s.ledger
      → target c ≡ some (job_id, state)
      → call q c s ≡ (ok tt, t)
      → Allowed c s.ledger × (progress q job_id t.ledger ≡ some state)
  call-progress c job_id state s t r h ran =
      (call-Allowed c s t ran, (call-Turns c job_id state h).at s t tt r ran)
