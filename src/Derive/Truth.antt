-- ===== src/Derive/Truth.antt =====
-- What stands behind `proved` and `refuted` (ledger/derive.py `_is_proved`, `truth_of`; ledger/
-- SEMANTICS.md, "Truth").
use lean_evolve.Prelude.{
  ◌≡◌, ◌≢◌, refl, ap, ◌∙◌, ◌⊎◌, inl, inr, Bool, true, false, List, [], ◌∷◌, ◌++◌, All, Bool-cases,
  eq_iff, arith, ◌==◌, if◌then◌else◌,
}
use lean_evolve.Events.{Event}
use lean_evolve.Derive.{proved_step, proved_from, is_proved}
use lean_evolve.Derive.Dimension.{proved_from-append}

abbrev Unretracted : Event → Type 0
Unretracted e = e.action ≢ "object_retracted"

-- A certification after which there is no retraction.
pub record Stands (es : List Event) : Type 0 where
  pub before : List Event
  pub certificate : Event
  pub later : List Event
  pub split : es ≡ before ++ certificate ∷ later
  pub certified : certificate.action ≡ "kernel_certified"
  pub unretracted : All Unretracted later

abbrev Since : Bool → List Event → Type 0
Since b es = ((b ≡ true) × All Unretracted es) ⊎ Stands es

Stands-cons : (x : Event) {es : List Event} → Stands es → Stands (x ∷ es)
Stands-cons x s = record {
  before = x ∷ s.before;
  certificate = s.certificate;
  later = s.later;
  split = ap (λ es. x ∷ es) s.split;
  certified = s.certified;
  unretracted = s.unretracted;
}

-- How a step can set the flag.
pub proved_step_cases :
    (b : Bool) (e : Event)
    → proved_step b e ≡ true
    → (e.action ≡ "kernel_certified") ⊎ ((b ≡ true) × Unretracted e)
unfolding proved_step
proved_step_cases b e h = elim (Bool-cases (e.action == "kernel_certified")) [
  | inl yes_it_is ↦ inl ((eq_iff e.action "kernel_certified").0 yes_it_is)
  | inr other ↦ elim (Bool-cases (e.action == "object_retracted")) [
    | inl gone ↦ absurd (cc (rw (other, gone) at h))
    | inr stays ↦
        inr (rw (other, stays) at h, λ q. cc (stays, (eq_iff e.action "object_retracted").1 q))
  ]
]

proved_from-Since : (b : Bool) (es : List Event) → proved_from b es ≡ true → Since b es
unfolding proved_from
proved_from-Since b [] h = inl (h, tt)
proved_from-Since b (e ∷ es) h = elim (proved_from-Since (proved_step b e) es h) [
  | inr s ↦ inr (Stands-cons e s)
  | inl (set, rest) ↦ elim (proved_step_cases b e set) [
    | inl q ↦ inr (record {
      before = [];
      certificate = e;
      later = es;
      split = refl;
      certified = q;
      unretracted = rest;
    })
    | inr (old, kept) ↦ inl (old, (kept, rest))
  ]
]

stays_proved : (es : List Event) → All Unretracted es → proved_from true es ≡ true
unfolding proved_from proved_step
stays_proved [] h = refl
stays_proved (e ∷ es) (kept, h) =
    rw (step (e.action == "kernel_certified") (e.action == "object_retracted") same)
      (stays_proved es h)
  where
    same : (e.action == "object_retracted") ≡ false
    same = elim (Bool-cases (e.action == "object_retracted")) [
      | inl gone ↦ absurd (kept ((eq_iff e.action "object_retracted").0 gone))
      | inr f ↦ f
    ]

    step : (a b : Bool) → b ≡ false → (if a then true else if b then false else true) ≡ true
    step a b h = ground arith

certifies : (b : Bool) (e : Event) → e.action ≡ "kernel_certified" → proved_step b e ≡ true
unfolding proved_step
certifies b e q = rw q

-- A proof stands exactly while it is certified: `_is_proved` says yes if and only if there is a
-- `kernel_certified` event with no `object_retracted` event after it.
pub is_proved-Stands :
    (es : List Event) → (is_proved es ≡ true → Stands es) × (Stands es → is_proved es ≡ true)
unfolding is_proved proved_from proved_step
is_proved-Stands es = (
  λ h. elim (proved_from-Since false es h) [ inl (f, _) ↦ absurd (cc f) | inr s ↦ s ],
  λ s.
      ap (proved_from false) s.split
      ∙ proved_from-append false s.before (s.certificate ∷ s.later)
      ∙ rw (certifies (proved_from false s.before) s.certificate s.certified)
          (stays_proved s.later s.unretracted),
)
