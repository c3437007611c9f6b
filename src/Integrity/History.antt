-- ===== src/Integrity/History.antt =====
-- What the check of the chain establishes (ledger/integrity.py `_check_chain`).
use mathlib.Core.List.{reverse-append}
use lean_evolve.Prelude.{
  nat_eq_sound, ℕ, suc, ◌+◌, String, ◌≡◌, refl, sym, ap, ◌∙◌, inl, inr, Bool, true, false, not,
  none, some, List, [], ◌∷◌, ◌++◌, map, reverse, select, maybe, ◌==◌, nat_eq, if◌then◌else◌, arith,
  eq_iff, eq_refl, Option-cases, some_inj,
}
use lean_evolve.Value.{Host}
use lean_evolve.Events.{Event, EventRow, compute_hash, event_from_row}
use lean_evolve.Events.Chain.{head_id, head_hash, IsLink, IsChain}
use lean_evolve.Store.Tables.{Ledger, events_of, in_query}
use lean_evolve.Store.Growth.{history}
use lean_evolve.Integrity.{Finding, Walk, report_if, inspect, walk, walk_start, check_chain}

select_all :
    {A : Type 0} (test : A → Bool) (xs : List A) → ((x : A) → test x ≡ true) → select test xs ≡ xs
select_all test [] h = refl
select_all test (x ∷ xs) h = rw (h x) (ap (λ ys. x ∷ ys) (select_all test xs h))

append_empty : {A : Type 0} (xs ys : List A) → (xs ++ ys) ≡ [] → (xs ≡ []) × (ys ≡ [])
append_empty [] ys h = (refl, h)
append_empty (x ∷ xs) ys h = absurd (ground arith)

report_if_empty : (b : Bool) (f : Finding) → report_if (not b) f ≡ [] → b ≡ true
report_if_empty true f h = refl
report_if_empty false f h = absurd (ground arith)

next_expected : (a b : ℕ) → a ≡ b → (if not (nat_eq a b) then a else b) + 1 ≡ suc a
next_expected a b h = ground arith

nat_eq-true : (a b : ℕ) → a ≡ b → nat_eq a b ≡ true
nat_eq-true a b h = ground arith

-- The variables of the loop behind a history in which nothing was found.
abbrev settled : List Event → Walk
settled es = record { expected_id = suc (head_id es); previous_hash = head_hash es; findings = [] }

module _ (host : Host) where
  -- The query without filters returns the history, oldest first.
  pub events_of-all : (l : Ledger) → events_of host l none none ≡ reverse (history host l)
  unfolding events_of
  events_of-all l =
      ap (λ (rows : List EventRow). reverse (map (event_from_row host) rows))
        (select_all (in_query none none) l.events (λ r. refl))

  walk-append :
      (w : Walk) (xs ys : List Event)
      → walk host w (xs ++ ys) ≡ maybe none (λ v. walk host v ys) (walk host w xs)
  unfolding walk
  walk-append w [] ys = refl
  walk-append w (e ∷ es) ys = elim (Option-cases (compute_hash host e)) [
    | inl bad ↦ rw bad refl
    | inr (h, good) ↦ rw good (walk-append (inspect w e h) es ys)
  ]

  inspect-settled :
      (e : Event) (es : List Event)
      → IsLink host e es
      → inspect (settled es) e e.event_hash ≡ settled (e ∷ es)
  unfolding inspect
  inspect-settled e es l = λ i. record {
    expected_id = next_expected e.id (suc (head_id es)) l.numbered i;
    previous_hash = e.event_hash;
    findings = nothing i;
  }
    where
      nothing :
          (report_if
              (not (nat_eq e.id (suc (head_id es))))
              (Finding.event_id_gap e.id (suc (head_id es)))
            ++ (report_if (not (e.previous_event_hash == head_hash es)) (Finding.chain_break e.id)
                ++ report_if
                    (not (e.event_hash == e.event_hash))
                    (Finding.event_hash_mismatch e.id)))
          ≡ []
      nothing =
          rw
            (
              nat_eq-true e.id (suc (head_id es)) l.numbered,
              (eq_iff e.previous_event_hash (head_hash es)).1 l.linked,
              eq_refl e.event_hash,
            )
            refl

  last_step :
      (e : Event) (es : List Event)
      → walk host walk_start (reverse (e ∷ es))
        ≡ maybe none (λ v. walk host v (e ∷ [])) (walk host walk_start (reverse es))
  last_step e es =
      ap (walk host walk_start) (reverse-append (e ∷ []) es)
      ∙ walk-append walk_start (reverse es) (e ∷ [])

  -- A chain that verifies is walked without a finding.
  walk-IsChain :
      (es : List Event) → IsChain host es → walk host walk_start (reverse es) ≡ some (settled es)
  unfolding walk
  walk-IsChain [] h = refl
  walk-IsChain (e ∷ es) (l, h) =
      last_step e es ∙ rw (walk-IsChain es h, l.sealed) (ap some (inspect-settled e es l))

  -- One more event without a finding is one more link.
  inspect-IsLink :
      (e : Event) (es : List Event) (v : Walk) (hash : String)
      → v ≡ settled es
      → compute_hash host e ≡ some hash
      → (inspect v e hash).findings ≡ []
      → IsLink host e es
  unfolding inspect
  inspect-IsLink e es v hash same sealed clean =
      let (_, tests) = append_empty v.findings _ clean in
      let (gap, more) = append_empty _ _ tests in
      let (link, digest) = append_empty _ _ more in
      record {
        numbered =
            nat_eq_sound e.id v.expected_id (report_if_empty _ _ gap)
            ∙ ap (λ (w : Walk). w.expected_id) same;
        linked =
            (eq_iff e.previous_event_hash v.previous_hash).0 (report_if_empty _ _ link)
            ∙ ap (λ (w : Walk). w.previous_hash) same;
        sealed = sealed ∙ ap some (sym ((eq_iff e.event_hash hash).0 (report_if_empty _ _ digest)));
      }

  kept_findings :
      (v : Walk) (e : Event) (hash : String) → (inspect v e hash).findings ≡ [] → v.findings ≡ []
  unfolding inspect
  kept_findings v e hash clean = (append_empty v.findings _ clean).0

  -- A walk without a finding goes over a chain that verifies.
  walk_clean-IsChain :
      (es : List Event) (w : Walk)
      → walk host walk_start (reverse es) ≡ some w
      → w.findings ≡ []
      → IsChain host es
  unfolding walk
  walk_clean-IsChain [] w h clean = tt
  walk_clean-IsChain (e ∷ es) w h clean =
      let r : maybe none (λ v. walk host v (e ∷ [])) (walk host walk_start (reverse es)) ≡ some w =
        sym (last_step e es) ∙ h in
      elim (Option-cases (walk host walk_start (reverse es))) [
        | inl stuck ↦ absurd (ground (arith, rw stuck at r))
        | inr (v, first) ↦ elim (Option-cases (compute_hash host e)) [
          | inl bad ↦ absurd (ground (arith, rw (first, bad) at r))
          | inr (hash, sealed) ↦
              let q : some (inspect v e hash) ≡ some w = rw (first, sealed) at r in
              let none_found = ap (λ (x : Walk). x.findings) (some_inj q) ∙ clean in
              let chain = walk_clean-IsChain es v first (kept_findings v e hash none_found) in
              let same = some_inj (sym first ∙ walk-IsChain es chain) in
              (inspect-IsLink e es v hash same sealed none_found, chain)
        ]
      ]

  -- The check of the chain reports nothing if and only if the chain of the whole history verifies:
  -- the ids count from 1, each event names the hash of the one before it, and carries its own digest.
  pub check_chain-IsChain :
      (l : Ledger)
      → (check_chain host l ≡ some [] → IsChain host (history host l))
        × (IsChain host (history host l) → check_chain host l ≡ some [])
  unfolding check_chain
  check_chain-IsChain l = (
    λ h. elim (Option-cases (walk host walk_start (reverse (history host l)))) [
      | inl stuck ↦ absurd (ground (arith, stuck, rw (events_of-all l) at h))
      | inr (w, done) ↦
          walk_clean-IsChain (history host l) w done
            (some_inj (rw done at (rw (events_of-all l) at h)))
    ],
    λ chain. rw (events_of-all l) (rw (walk-IsChain (history host l) chain) refl),
  )
