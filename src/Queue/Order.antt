-- ===== src/Queue/Order.antt =====
-- The order in which `pending` of ledger/queue.py sorts the jobs.
use lean_evolve.Prelude.{
  ℕ, ◌≤◌, ◌≡◌, refl, inl, inr, ◌↔◌, Bool, true, false, not, ◌&&◌, ◌||◌, List, [], ◌∷◌, Member, All,
  Bool-cases, arith,
}
use lean_evolve.Queue.Jobs.{CheckJob, int_less, precedes, insert_job, sort_jobs}

int_less-not_between :
    (x y z : Bool × ℕ) → int_less z y ≡ false → int_less y x ≡ false → int_less z x ≡ false
int_less-not_between (true, a) (true, b) (true, c) h k = ground arith
int_less-not_between (true, a) (true, b) (false, c) h k = ground arith
int_less-not_between (true, a) (false, b) (true, c) h k = ground arith
int_less-not_between (true, a) (false, b) (false, c) h k = ground arith
int_less-not_between (false, a) (true, b) (true, c) h k = ground arith
int_less-not_between (false, a) (true, b) (false, c) h k = ground arith
int_less-not_between (false, a) (false, b) (true, c) h k = ground arith
int_less-not_between (false, a) (false, b) (false, c) h k = ground arith

int_less-one_way : (x y : Bool × ℕ) → int_less x y ≡ true → int_less y x ≡ false
int_less-one_way (true, a) (true, b) h = ground arith
int_less-one_way (true, a) (false, b) h = ground arith
int_less-one_way (false, a) (true, b) h = ground arith
int_less-one_way (false, a) (false, b) h = ground arith

-- The parts of a key that is not before another.
not_before : (a b c : Bool) → (a || (not b && c)) ≡ false → (a ≡ false) × (b ≡ false → c ≡ false)
not_before a b c h = (ground arith, λ k. ground arith)

precedes-one_way : (x y : CheckJob) → precedes x y ≡ true → precedes y x ≡ false
precedes-one_way x y h = elim (Bool-cases (int_less y.priority x.priority)) [
  | inl first ↦ ground (arith, first, int_less-one_way y.priority x.priority first)
  | inr other ↦ ground (arith, h, other)
]

precedes-not_between :
    (x y z : CheckJob) → precedes z y ≡ false → precedes y x ≡ false → precedes z x ≡ false
precedes-not_between x y z h k =
    let (zy, ties) =
      not_before (int_less y.priority z.priority) (int_less z.priority y.priority) _ h in
    let (yx, ties2) =
      not_before (int_less x.priority y.priority) (int_less y.priority x.priority) _ k in
    let zx = int_less-not_between z.priority y.priority x.priority yx zy in
    elim (Bool-cases (int_less z.priority x.priority)) [
      | inl first ↦ ground (arith, zx, first)
      | inr other ↦
          let later = ties (int_less-not_between y.priority x.priority z.priority other yx) in
          let later2 = ties2 (int_less-not_between x.priority z.priority y.priority zy other) in
          ground (arith, zx, later, later2)
    ]

-- No job comes before one that stands in front of it, by the test of the code.
abbrev IsOrdered : List CheckJob → Type 0
IsOrdered [] = Unit
IsOrdered (x ∷ xs) = All (λ y. precedes y x ≡ false) xs × IsOrdered xs

insert_job-All :
    (P : CheckJob → Type 0) (x : CheckJob) (xs : List CheckJob)
    → P x
    → All P xs
    → All P (insert_job x xs)
unfolding insert_job
insert_job-All P x [] p h = (p, tt)
insert_job-All P x (y ∷ ys) p (q, h) = elim (Bool-cases (precedes y x)) [
  | inl before ↦ rw before (q, insert_job-All P x ys p h)
  | inr after ↦ rw after (p, (q, h))
]

behind_all :
    (x y : CheckJob) (ys : List CheckJob)
    → precedes y x ≡ false
    → All (λ z. precedes z y ≡ false) ys
    → All (λ z. precedes z x ≡ false) ys
behind_all x y [] k h = tt
behind_all x y (z ∷ zs) k (p, h) = (precedes-not_between x y z p k, behind_all x y zs k h)

insert_job-IsOrdered :
    (x : CheckJob) (xs : List CheckJob) → IsOrdered xs → IsOrdered (insert_job x xs)
unfolding insert_job
insert_job-IsOrdered x [] h = (tt, tt)
insert_job-IsOrdered x (y ∷ ys) (p, h) = elim (Bool-cases (precedes y x)) [
  | inl before ↦ rw before (
    insert_job-All (λ z. precedes z y ≡ false) x ys (precedes-one_way y x before) p,
    insert_job-IsOrdered x ys h,
  )
  | inr after ↦ rw after ((after, behind_all x y ys after p), (p, h))
]

insert_job-Member :
    (j x : CheckJob) (xs : List CheckJob) → Member j (insert_job x xs) ↔ Member j (x ∷ xs)
unfolding insert_job
insert_job-Member j x [] = (λ m. m, λ m. m)
insert_job-Member j x (y ∷ ys) = elim (Bool-cases (precedes y x)) [
  | inl before ↦ rw before (there (insert_job-Member j x ys).0, back (insert_job-Member j x ys).1)
  | inr after ↦ rw after (λ m. m, λ m. m)
]
  where
    there :
        (Member j (insert_job x ys) → Member j (x ∷ ys))
        → Member j (y ∷ insert_job x ys)
        → Member j (x ∷ y ∷ ys)
    there f (inl e) = inr (inl e)
    there f (inr m) = elim (f m) [ inl e ↦ inl e | inr n ↦ inr (inr n) ]

    back :
        (Member j (x ∷ ys) → Member j (insert_job x ys))
        → Member j (x ∷ y ∷ ys)
        → Member j (y ∷ insert_job x ys)
    back f (inl e) = inr (f (inl e))
    back f (inr (inl e)) = inl e
    back f (inr (inr m)) = inr (f (inr m))

sort_jobs-IsOrdered : (xs : List CheckJob) → IsOrdered (sort_jobs xs)
unfolding sort_jobs
sort_jobs-IsOrdered [] = tt
sort_jobs-IsOrdered (x ∷ xs) = insert_job-IsOrdered x (sort_jobs xs) (sort_jobs-IsOrdered xs)

pub sort_jobs-Member : (j : CheckJob) (xs : List CheckJob) → Member j (sort_jobs xs) ↔ Member j xs
unfolding sort_jobs
sort_jobs-Member j [] = (λ m. m, λ m. m)
sort_jobs-Member j (x ∷ xs) =
    let (into, back) = insert_job-Member j x (sort_jobs xs) in
    let (f, g) = sort_jobs-Member j xs in
    (
      λ m. elim (into m) [ inl e ↦ inl e | inr n ↦ inr (f n) ],
      λ m. back (elim m [ inl e ↦ inl e | inr n ↦ inr (g n) ]),
    )

-- The order of the integers, by sign and size.
abbrev pub IsAtMost : Bool × ℕ → Bool × ℕ → Type 0
IsAtMost (false, a) (false, b) = a ≤ b
IsAtMost (true, a) (true, b) = b ≤ a
IsAtMost (true, a) (false, b) = Unit
IsAtMost (false, a) (true, b) = (a ≡ 0) × (b ≡ 0)

-- The first job has at least the priority of the second, and if the second has at least its priority
-- too, the first is not the younger one.
pub record IsFirst (x y : CheckJob) : Type 0 where
  pub urgent : IsAtMost y.priority x.priority
  pub older : IsAtMost x.priority y.priority → x.created_event_id ≤ y.created_event_id

-- Every job of a list may stand in front of those behind it.
abbrev pub IsQueue : List CheckJob → Type 0
IsQueue [] = Unit
IsQueue (x ∷ xs) = All (IsFirst x) xs × IsQueue xs

int_less-IsAtMost : (a b : Bool × ℕ) → int_less a b ≡ false → IsAtMost b a
int_less-IsAtMost (false, a) (false, b) h = ground (arith, h)
int_less-IsAtMost (true, a) (true, b) h = ground (arith, h)
int_less-IsAtMost (true, a) (false, b) h = (ground (arith, h), ground (arith, h))
int_less-IsAtMost (false, a) (true, b) h = tt

IsAtMost-int_less : (a b : Bool × ℕ) → IsAtMost a b → int_less b a ≡ false
IsAtMost-int_less (false, a) (false, b) h = ground (arith, h)
IsAtMost-int_less (true, a) (true, b) h = ground (arith, h)
IsAtMost-int_less (true, a) (false, b) h = refl
IsAtMost-int_less (false, a) (true, b) (p, q) = ground (arith, p, q)

precedes-IsFirst : (x y : CheckJob) → precedes y x ≡ false → IsFirst x y
precedes-IsFirst x y h =
    let (behind, ties) =
      not_before (int_less x.priority y.priority) (int_less y.priority x.priority) _ h in
    record {
      urgent = int_less-IsAtMost x.priority y.priority behind;
      older = λ k.
          let later = ties (IsAtMost-int_less x.priority y.priority k) in ground (arith, later);
    }

all-IsFirst :
    (x : CheckJob) (ys : List CheckJob) → All (λ y. precedes y x ≡ false) ys → All (IsFirst x) ys
all-IsFirst x [] h = tt
all-IsFirst x (y ∷ ys) (p, h) = (precedes-IsFirst x y p, all-IsFirst x ys h)

IsOrdered-IsQueue : (xs : List CheckJob) → IsOrdered xs → IsQueue xs
IsOrdered-IsQueue [] h = tt
IsOrdered-IsQueue (x ∷ xs) (p, h) = (all-IsFirst x xs p, IsOrdered-IsQueue xs h)

pub sort_jobs-IsQueue : (xs : List CheckJob) → IsQueue (sort_jobs xs)
sort_jobs-IsQueue xs = IsOrdered-IsQueue (sort_jobs xs) (sort_jobs-IsOrdered xs)
