-- ===== src/Queue/Read.antt =====
-- What `_from_record` of ledger/queue.py returns.
use lean_evolve.Prelude.{
  find-Member, String, ◌≡◌, sym, ap, ◌∙◌, inl, inr, not, none, some, find, ◌==◌, ok, raise_if,
  raise_as, arith, eq_iff, Option-cases, some_inj, ok-injective, >>=-eq-ok, raise_if-not-eq-ok,
}
use lean_evolve.Value.{Host}
use lean_evolve.Vocabulary.Validate.{Checked}
use lean_evolve.Store.Tables.{Ledger, ObjectRecord, ObjectRow, object, object_from_row, events_of}
use lean_evolve.Derive.{DerivedState, operational, verification, state_of}
use lean_evolve.Queue.Exec.{derived, unknown_check, DurableCheckQueue}
use lean_evolve.Queue.Jobs.{
  CheckJob, or_queued, text_property, priority_of, budget_of, job_of, from_record,
}
use lean_evolve.Queue.Machine.{progress}

module _ (host : Host) where
  pub state_of-operational :
      (l : Ledger) (id : String) (s : DerivedState)
      → state_of host l id none ≡ ok s
      → s.operational ≡ operational (events_of host l (some id) none)
  unfolding state_of
  state_of-operational l id s h =
      let (level, _, rest) = >>=-eq-ok (verification (events_of host l (some id) none)) _ h in
      ap (λ (x : DerivedState). x.operational) (sym (ok-injective rest))

  pub object-id :
      (l : Ledger) (id : String) (o : ObjectRecord) → object host l id ≡ some o → o.id ≡ id
  unfolding object object_from_row
  object-id l id o h = elim (Option-cases (find (λ (r : ObjectRow). r.id == id) l.objects)) [
    | inl absent ↦ absurd (ground (arith, rw absent at h))
    | inr (row, seen) ↦
        ap (λ (x : ObjectRecord). x.id) (sym (some_inj (rw seen at h)))
        ∙ (eq_iff row.id id).0 (find-Member (λ (r : ObjectRow). r.id == id) l.objects row seen).1
  ]

module _ (q : DurableCheckQueue) where
  -- A job that `_from_record` returns has the id that was asked for, and its state is that of its
  -- events.
  pub record IsJob (id : String) (l : Ledger) (job : CheckJob) : Type 0 where
    pub found : ObjectRecord
    pub there : object q.host l id ≡ some found
    pub is_check : found.kind ≡ "check"
    pub named : job.id ≡ id
    pub state : job.state ≡ or_queued (progress q id l)

  job_of-returns :
      (l : Ledger) (o : ObjectRecord) (job : CheckJob)
      → job_of q l o ≡ ok job
      → (job.id ≡ o.id) × (job.state ≡ or_queued (progress q o.id l))
  unfolding job_of
  job_of-returns l o job h =
      let (_, _, h1) = >>=-eq-ok (text_property q "checkpoint_key" o) _ h in
      let (_, _, h2) = >>=-eq-ok (text_property q "environment_identity" o) _ h1 in
      let (_, _, h3) = >>=-eq-ok (text_property q "input_sha256" o) _ h2 in
      let (_, _, h4) = >>=-eq-ok (text_property q "source_artifact_id" o) _ h3 in
      let (_, _, h5) = >>=-eq-ok (text_property q "request_class" o) _ h4 in
      let (_, _, h6) = >>=-eq-ok (priority_of q o) _ h5 in
      let (_, _, h7) = >>=-eq-ok (budget_of q o) _ h6 in
      let (s, k, h8) = >>=-eq-ok (raise_as derived (state_of q.host l o.id none)) _ h7 in
      let end = sym (ok-injective h8) in
      (
        ap (λ (x : CheckJob). x.id) end,
        ap (λ (x : CheckJob). x.state) end
            ∙ ap or_queued (state_of-operational q.host l o.id s (raised _ k)),
      )
    where
      raised : {A : Type 0} {a : A} (m : Checked A) → raise_as derived m ≡ ok a → m ≡ ok a
      raised m k = ground arith

  pub from_record-IsJob :
      (id : String) (l : Ledger) (job : CheckJob) → from_record q id l ≡ ok job → IsJob id l job
  unfolding from_record
  from_record-IsJob id l job h = elim (Option-cases (object q.host l id)) [
    | inl absent ↦ absurd (ground (arith, rw absent at h))
    | inr (o, seen) ↦
        let (_, checked, rest) =
          >>=-eq-ok (raise_if (not (o.kind == "check")) (unknown_check id)) (λ _. job_of q l o)
            (rw seen at h) in
        let (named, state) = job_of-returns l o job rest in
        let same = object-id q.host l id o seen in
        record {
          found = o;
          there = seen;
          is_check = (eq_iff o.kind "check").0 (raise_if-not-eq-ok _ _ checked);
          named = named ∙ same;
          state = state ∙ ap (λ i. or_queued (progress q i l)) same;
        }
  ]
