-- ===== src/Queue/Submitted.antt =====
-- What `submit` of ledger/queue.py returns, once and again.
use lean_evolve.Prelude.{
  String, ◌≡◌, refl, sym, ap, subst, ◌∙◌, inl, inr, Bool, true, false, none, is_some, ok,
  Bool-cases, ok-injective, leb, length,
}
use lean_evolve.Store.Tables.{object}
use lean_evolve.Queue.Exec.{
  DurableCheckQueue, State, Method, give, look, refuse_when, queue_full, ◌>>=◌, transact_storing,
}
use lean_evolve.Queue.Jobs.{CheckJob, no_scope, from_record, pending}
use lean_evolve.Queue.Blocks.{Submission, submitted_job, submit_block}
use lean_evolve.Queue.Submit.{gateway, note_reuse, reuse, enqueue, submit}
use lean_evolve.Queue.Machine.{>>=-returns}
use lean_evolve.Queue.Read.{from_record-IsJob}

module _ (q : DurableCheckQueue) where
  -- The last two lines of a branch of `submit`.
  abbrev reading : String → Bool → Method (CheckJob × Bool)
  reading id flag = look (from_record q id) >>= λ job. give (job, flag)

  abbrev IsRead : String → Bool → CheckJob → Bool → State → Type 0
  IsRead id flag job known t = (from_record q id t.ledger ≡ ok job) × (known ≡ flag)

  reading-returns :
      (id : String) (flag known : Bool) (s t : State) (job : CheckJob)
      → reading id flag s ≡ (ok (job, known), t)
      → IsRead id flag job known t
  unfolding look give
  reading-returns id flag known s t job h =
      let (found, read, last) = >>=-returns (look (from_record q id)) _ s h in
      let both = ok-injective (ap (λ p. p.0) last) in
      let end = ap (λ p. p.1) last in
      (
        subst (λ (x : State). from_record q id x.ledger ≡ ok job) end
            (read ∙ ap ok (ap (λ p. p.0) both)),
        sym (ap (λ p. p.1) both),
      )

  reuse-returns :
      (a : Submission) (s t : State) (job : CheckJob) (known : Bool)
      → reuse q a s ≡ (ok (job, known), t)
      → IsRead (submitted_job q a) true job known t
  unfolding reuse
  reuse-returns a s t job known h =
      let (_, _, last) = >>=-returns (note_reuse q a) (λ _. reading (submitted_job q a) true) s h in
      reading-returns (submitted_job q a) true known _ t job last

  enqueue-returns :
      (a : Submission) (s t : State) (job : CheckJob) (known : Bool)
      → enqueue q a s ≡ (ok (job, known), t)
      → IsRead (submitted_job q a) false job known t
  unfolding enqueue
  enqueue-returns a s t job known h =
      let (waiting, _, h1) = >>=-returns (look (pending q none)) _ s h in
      let (_, _, h2) =
        >>=-returns (refuse_when (leb q.max_pending (length waiting)) (queue_full q.max_pending)) _
          _ h1 in
      let (_, _, last) =
        >>=-returns (transact_storing q (gateway a.scope) a.source (submit_block q a))
          (λ _. reading (submitted_job q a) false) _ h2 in
      reading-returns (submitted_job q a) false known _ t job last

  submit-returns :
      (a : Submission) (s t : State) (job : CheckJob) (known : Bool)
      → submit q a s ≡ (ok (job, known), t)
      → IsRead
          (submitted_job q a)
          (is_some (object q.host s.ledger (submitted_job q a)))
          job
          known
          t
  unfolding submit look ◌>>=◌
  submit-returns a s t job known h =
      elim (Bool-cases (is_some (object q.host s.ledger (submitted_job q a)))) [
        | inl there ↦ rw there (reuse-returns a s t job known (rw there at h))
        | inr fresh ↦ rw fresh (enqueue-returns a s t job known (rw fresh at h))
      ]

  -- When `submit` returns, it says whether the job was there, and the job is the one whose id comes from
  -- the digest of the request. The same request without a scope then returns the same job, says that it
  -- is there, and changes neither the ledger nor the files.
  pub submit-again :
      (a : Submission) (s t : State) (job : CheckJob) (known : Bool)
      → submit q a s ≡ (ok (job, known), t)
      → (known ≡ is_some (object q.host s.ledger (submitted_job q a)))
        × (job.id ≡ submitted_job q a)
        × (submit q (record a { scope = no_scope }) t ≡ (ok (job, true), t))
  unfolding submit reuse look give ◌>>=◌
  submit-again a s t job known h =
      let (read, told) = submit-returns a s t job known h in
      let i = from_record-IsJob q (submitted_job q a) t.ledger job read in
      (told, i.named, rw (i.there, read) refl)
