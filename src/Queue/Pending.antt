-- ===== src/Queue/Pending.antt =====
-- What is in `pending` (ledger/queue.py).
use lean_evolve.Prelude.{
  String, ◌≡◌, refl, sym, ap, subst, ◌∙◌, ◌⊎◌, inl, inr, ◌↔◌, Bool, true, false, ◌&&◌, Option, some,
  List, [], ◌∷◌, ◌==◌, ok, Member, Bool-cases, arith, none, >>=-eq-ok, some_inj, eq_iff,
  ok-injective,
}
use lean_evolve.Store.Tables.{Ledger, ObjectRecord, objects}
use lean_evolve.Queue.Exec.{DurableCheckQueue}
use lean_evolve.Queue.Jobs.{CheckJob, from_record, keyed, queued_jobs, pending}
use lean_evolve.Queue.Order.{IsQueue, sort_jobs-IsQueue, sort_jobs-Member}

module _ (q : DurableCheckQueue) (key : Option String) (l : Ledger) where
  -- A job that is read from one of the objects and passes the tests of the loop.
  abbrev IsFound : List ObjectRecord → CheckJob → Type 0
  IsFound os j =
      (o : ObjectRecord) × Member o os
      × (from_record q o.id l ≡ ok j)
      × ((j.state == "queued" && keyed q key j) ≡ true)

  queued_jobs-IsFound :
      (os : List ObjectRecord) (js : List CheckJob) (j : CheckJob)
      → queued_jobs q key l os ≡ ok js
      → Member j js ↔ IsFound os j
  unfolding queued_jobs
  queued_jobs-IsFound [] js j h =
      (λ m. absurd (subst (Member j) (sym (ok-injective h)) m), λ (o, m, r, k). absurd m)
  queued_jobs-IsFound (o ∷ os) js j h =
      let (job, read, h1) = >>=-eq-ok (from_record q o.id l) _ h in
      let (rest, others, h2) = >>=-eq-ok (queued_jobs q key l os) _ h1 in
      let (f, g) = queued_jobs-IsFound os rest j others in
      let e = ok-injective h2 in
      elim (Bool-cases (job.state == "queued" && keyed q key job)) [
        | inl waits ↦
            let e1 = rw waits at e in
            (
              λ m. elim (subst (Member j) (sym e1) m) [
                | inl s ↦ (o, inl refl, read ∙ ap ok (sym s), ap waiting s ∙ waits)
                | inr n ↦ widen (f n)
              ],
              λ w.
                  subst (Member j) e1
                    (elim (first read w) [ inl same ↦ inl (sym same) | inr w2 ↦ inr (g w2) ]),
            )
        | inr other ↦
            let e1 = rw other at e in
            (
              λ m. widen (f (subst (Member j) (sym e1) m)),
              λ w. subst (Member j) e1 (elim (first read w) [
                | inl same ↦ absurd (both_ways (ap waiting same ∙ w.3) other)
                | inr w2 ↦ g w2
              ]),
            )
      ]
    where
      waiting : CheckJob → Bool
      waiting x = x.state == "queued" && keyed q key x

      widen : IsFound os j → IsFound (o ∷ os) j
      widen (o2, m, r, k) = (o2, inr m, r, k)

      first :
          {job : CheckJob}
          → from_record q o.id l ≡ ok job
          → IsFound (o ∷ os) j
          → (job ≡ j) ⊎ IsFound os j
      first read (o2, inl s, r, k) =
          inl
            (ok-injective (sym read ∙ ap (λ (x : ObjectRecord). from_record q x.id l) (sym s) ∙ r))
      first read (o2, inr m, r, k) = inr (o2, m, r, k)

      both_ways : {b : Bool} → b ≡ true → b ≡ false → ⊥
      both_ways h k = absurd (ground (arith, h, k))

  -- A job that is read from one of the objects, is queued, and has the key if there is one.
  pub record IsWaiting (os : List ObjectRecord) (j : CheckJob) : Type 0 where
    pub check : ObjectRecord
    pub listed : Member check os
    pub read : from_record q check.id l ≡ ok j
    pub queued : j.state ≡ "queued"
    pub with_key : (k : String) → key ≡ some k → j.checkpoint_key ≡ k

  both : (a b : Bool) → (a && b) ≡ true → (a ≡ true) × (b ≡ true)
  both true b h = (refl, h)
  both false b h = absurd (ground arith)

  keyed-key :
      (wanted : Option String) (j : CheckJob)
      → keyed q wanted j ≡ true
      → (k : String) → wanted ≡ some k
      → j.checkpoint_key ≡ k
  keyed-key none j h k e = absurd (ground (arith, e))
  keyed-key (some w) j h k e = (eq_iff j.checkpoint_key w).0 h ∙ some_inj e

  key-keyed :
      (wanted : Option String) (j : CheckJob)
      → ((k : String) → wanted ≡ some k → j.checkpoint_key ≡ k)
      → keyed q wanted j ≡ true
  key-keyed none j h = refl
  key-keyed (some w) j h = (eq_iff j.checkpoint_key w).1 (h w refl)

  IsFound-IsWaiting : (os : List ObjectRecord) (j : CheckJob) → IsFound os j ↔ IsWaiting os j
  IsFound-IsWaiting os j = (
    λ (o, m, r, h).
        let (s, k) = both (j.state == "queued") (keyed q key j) h in
        record {
          check = o;
          listed = m;
          read = r;
          queued = (eq_iff j.state "queued").0 s;
          with_key = keyed-key key j k;
        },
    λ w. (
      w.check,
      w.listed,
      w.read,
      rw ((eq_iff j.state "queued").1 w.queued) (key-keyed key j w.with_key),
    ),
  )

  -- What `pending` returns, when it returns, are the jobs of the check objects that are queued and have
  -- the key (all that are queued, without a key), in the order of their priority: each has
  -- at least the priority of those behind it, and of equal priorities the one that was created first
  -- stands in front.
  pub pending-IsQueue :
      (jobs : List CheckJob)
      → pending q key l ≡ ok jobs
      → IsQueue jobs
        × ((j : CheckJob) → Member j jobs ↔ IsWaiting (objects q.host l (some "check")) j)
  unfolding pending
  pending-IsQueue jobs h =
      let (js, found, h1) = >>=-eq-ok (queued_jobs q key l (objects q.host l (some "check"))) _ h in
      let e = ok-injective h1 in
      (
        subst IsQueue e (sort_jobs-IsQueue js),
        λ j.
            let (f, g) = sort_jobs-Member j js in
            let (c, d) = queued_jobs-IsFound (objects q.host l (some "check")) js j found in
            let (out, into) = IsFound-IsWaiting (objects q.host l (some "check")) j in
            (
              λ m. out (c (f (subst (Member j) (sym e) m))),
              λ w. subst (Member j) e (g (d (into w))),
            ),
      )
