-- ===== src/Derive/Dimension.antt =====
-- The reports on a check and the dimensions of derived state (ledger/derive.py, ledger/SEMANTICS.md).
use lean_evolve.Prelude.{
  String, ◌≡◌, refl, sym, ap, ◌∙◌, Bool, true, false, Option, none, List, [], ◌∷◌, ◌++◌,
  Option-cases, inl, inr, Among, is_some, ◌==◌, subst,
}
use lean_evolve.Events.{Event}
use lean_evolve.Vocabulary.Validate.{dominant_verification_level}
use lean_evolve.Derive.{
  table_get, verification_events, operational_events, lifecycle_events, recorded_levels,
  verification, lifecycle_step, lifecycle_from, lifecycle, operational_step, operational_from,
  operational, proved_step, proved_from, is_proved,
}

lifecycle_from-append :
    (s : String) (xs ys : List Event)
    → lifecycle_from s (xs ++ ys) ≡ lifecycle_from (lifecycle_from s xs) ys
unfolding lifecycle_from
lifecycle_from-append s [] ys = refl
lifecycle_from-append s (x ∷ xs) ys = lifecycle_from-append (lifecycle_step s x) xs ys

pub operational_from-append :
    (s : Option String) (xs ys : List Event)
    → operational_from s (xs ++ ys) ≡ operational_from (operational_from s xs) ys
unfolding operational_from
operational_from-append s [] ys = refl
operational_from-append s (x ∷ xs) ys = operational_from-append (operational_step s x) xs ys

pub proved_from-append :
    (s : Bool) (xs ys : List Event) → proved_from s (xs ++ ys) ≡ proved_from (proved_from s xs) ys
unfolding proved_from
proved_from-append s [] ys = refl
proved_from-append s (x ∷ xs) ys = proved_from-append (proved_step s x) xs ys

recorded_levels-append_none :
    (xs : List Event) (e : Event)
    → table_get e.action verification_events ≡ none
    → recorded_levels (xs ++ e ∷ []) ≡ recorded_levels xs
unfolding recorded_levels
recorded_levels-append_none [] e h = rw h
recorded_levels-append_none (x ∷ xs) e h =
    elim (Option-cases (table_get x.action verification_events)) [
      | inl skip ↦ rw skip (recorded_levels-append_none xs e h)
      | inr (level, kept) ↦ rw kept (ap (λ ls. level ∷ ls) (recorded_levels-append_none xs e h))
    ]

-- The actions that only report how a check is going.
abbrev pub check_reports : List String
check_reports =
    "check_submitted" ∷ "check_started" ∷ "check_completed" ∷ "check_failed" ∷ "check_timed_out"
    ∷ "check_interrupted" ∷ "check_cancelled" ∷ "check_superseded" ∷ []

record IsReport (action : String) : Type 0 where
  no_level : table_get action verification_events ≡ none
  no_lifecycle : table_get action lifecycle_events ≡ none
  no_certificate : (action == "kernel_certified") ≡ false
  no_retraction : (action == "object_retracted") ≡ false
  reports : is_some (table_get action operational_events) ≡ true

pub reported :
    (s : Option String) (e : Event)
    → is_some (table_get e.action operational_events) ≡ true
    → operational_from s (e ∷ []) ≡ table_get e.action operational_events
unfolding operational_from operational_step
reported s e h = elim (Option-cases (table_get e.action operational_events)) [
  | inl missing ↦ absurd (cc (ap is_some missing))
  | inr (state, q) ↦ rw q
]

not_proved :
    (b : Bool) (e : Event)
    → (e.action == "kernel_certified") ≡ false
    → (e.action == "object_retracted") ≡ false
    → proved_from b (e ∷ []) ≡ b
unfolding proved_from proved_step
not_proved b e p q = rw (p, q)

no_change :
    (s : String) (e : Event)
    → table_get e.action lifecycle_events ≡ none
    → lifecycle_from s (e ∷ []) ≡ s
unfolding lifecycle_from lifecycle_step
no_change s e h = rw h

-- A report at one of the names of the list.
IsReport-at : {a : String} (action : String) → action ≡ a → IsReport a → IsReport action
IsReport-at action q r = subst IsReport (sym q) r

Among-IsReport : (action : String) → Among action check_reports → IsReport action
Among-IsReport action (inl q) = IsReport-at action q (record {
  no_level = refl;
  no_lifecycle = refl;
  no_certificate = refl;
  no_retraction = refl;
  reports = refl;
})
Among-IsReport action (inr (inl q)) = IsReport-at action q (record {
  no_level = refl;
  no_lifecycle = refl;
  no_certificate = refl;
  no_retraction = refl;
  reports = refl;
})
Among-IsReport action (inr (inr (inl q))) = IsReport-at action q (record {
  no_level = refl;
  no_lifecycle = refl;
  no_certificate = refl;
  no_retraction = refl;
  reports = refl;
})
Among-IsReport action (inr (inr (inr (inl q)))) = IsReport-at action q (record {
  no_level = refl;
  no_lifecycle = refl;
  no_certificate = refl;
  no_retraction = refl;
  reports = refl;
})
Among-IsReport action (inr (inr (inr (inr (inl q))))) = IsReport-at action q (record {
  no_level = refl;
  no_lifecycle = refl;
  no_certificate = refl;
  no_retraction = refl;
  reports = refl;
})
Among-IsReport action (inr (inr (inr (inr (inr (inl q)))))) = IsReport-at action q (record {
  no_level = refl;
  no_lifecycle = refl;
  no_certificate = refl;
  no_retraction = refl;
  reports = refl;
})
Among-IsReport action (inr (inr (inr (inr (inr (inr (inl q))))))) = IsReport-at action q (record {
  no_level = refl;
  no_lifecycle = refl;
  no_certificate = refl;
  no_retraction = refl;
  reports = refl;
})
Among-IsReport action (inr (inr (inr (inr (inr (inr (inr (inl q)))))))) =
    IsReport-at action q (record {
      no_level = refl;
      no_lifecycle = refl;
      no_certificate = refl;
      no_retraction = refl;
      reports = refl;
    })
Among-IsReport action (inr (inr (inr (inr (inr (inr (inr (inr q)))))))) = absurd q

-- An event that only reports how a check is going (a timeout, a failure or an interruption among
-- them) sets the operational state that the table gives for it, and leaves proof, verification and
-- lifecycle as they were.
pub check_reports-operational :
    (es : List Event) (e : Event)
    → Among e.action check_reports
    → (is_some (operational (es ++ e ∷ [])) ≡ true)
      × (operational (es ++ e ∷ []) ≡ table_get e.action operational_events)
      × (is_proved (es ++ e ∷ []) ≡ is_proved es)
      × (verification (es ++ e ∷ []) ≡ verification es)
      × (lifecycle (es ++ e ∷ []) ≡ lifecycle es)
unfolding operational is_proved verification lifecycle
check_reports-operational es e m =
    let r = Among-IsReport e.action m in
    let says = reported (operational_from none es) e r.reports in
    (
      rw (operational_from-append none es (e ∷ [])) (rw says r.reports),
      operational_from-append none es (e ∷ []) ∙ says,
      proved_from-append false es (e ∷ [])
          ∙ not_proved (proved_from false es) e r.no_certificate r.no_retraction,
      ap dominant_verification_level (recorded_levels-append_none es e r.no_level),
      lifecycle_from-append "active" es (e ∷ [])
          ∙ no_change (lifecycle_from "active" es) e r.no_lifecycle,
    )
