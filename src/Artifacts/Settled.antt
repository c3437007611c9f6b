-- ===== src/Artifacts/Settled.antt =====
-- What the checks of a list of places record of them (ledger/artifacts.py `reverify`, ledger/store.py
-- `verify_location`).
use lean_evolve.Prelude.{
  String, ◌≡◌, refl, sym, ap, ◌∙◌, inl, inr, Bool, true, false, not, ◌&&◌, ◌||◌, Option, none, some,
  List, [], ◌∷◌, map, select, All, ◌==◌, Except, ok, if◌then◌else◌, arith, eq_iff, Bool-cases,
  Option-cases,
}
use lean_evolve.Value.{Host}
use lean_evolve.Events.{Draft, Event}
use lean_evolve.Store.Tables.{LocationRow, is_place, update, object}
use lean_evolve.Store.Exec.{LedgerError, Session, pure, raise, gets, modify, ◌>>=◌}
use lean_evolve.Store.Session.{record_event}
use lean_evolve.Store.Append.{Recorded, failed, appended, found, record_event-Recorded}
use lean_evolve.Store.Artifacts.{require_artifact, verify_location}
use lean_evolve.Store.Edges.View.{>>=-returns}

abbrev pub places_of : Session → List LocationRow
places_of s = s.ledger.locations

-- The write of `verify_location`.
abbrev marked : Bool → Option String → LocationRow → LocationRow
marked v at p = record p { state = if v then "present" else "lost"; verified_at = at }

pub and_true : (a : Bool) → a ≡ true → (a && true) ≡ true
and_true a h = ground arith

pub and_left : (a b : Bool) → (a && b) ≡ true → a ≡ true
and_left a b h = ground arith

pub and_right : (a b : Bool) → (a && b) ≡ true → b ≡ true
and_right a b h = ground arith

module _ (host : Host) where
  Recorded-places :
      {draft : Draft} {s t : Session} {r : Except LedgerError Event}
      → Recorded host draft s r t
      → places_of t ≡ places_of s
  Recorded-places (failed e) = ap places_of e
  Recorded-places (found k e) = ap places_of e
  Recorded-places (appended a) = ap places_of a.moved

  require_artifact-places : (id : String) (s : Session) → (require_artifact host id s).1 ≡ s
  unfolding require_artifact ◌>>=◌ pure raise gets
  require_artifact-places id s = elim (Option-cases (object host s.ledger id)) [
    | inl absent ↦ rw absent refl
    | inr (o, there) ↦ elim (Bool-cases (o.kind == "artifact")) [
      | inl good ↦ rw (there, good) refl
      | inr other ↦ rw (there, other) refl
    ]
  ]

  pub verify_location-returns :
      (id place : String) (v : Bool) (s t : Session)
      → verify_location host id place v s ≡ (ok tt, t)
      → (at : Option String) × (places_of t
          ≡ update (is_place id place) (marked v at) (places_of s))
  unfolding verify_location modify
  verify_location-returns id place v s t h =
      let (o, _, h1) = >>=-returns (require_artifact host id) _ s h in
      let (e, _, h2) = >>=-returns (record_event host _) _ (require_artifact host id s).1 h1 in
      let before =
        Recorded-places (record_event-Recorded host _ (require_artifact host id s).1)
        ∙ ap places_of (require_artifact-places id s) in
      (
        (if v then some e.occurred_at else none),
        ap (λ (p : Except LedgerError (Unit {0}) × Session). places_of p.1) (sym h2)
            ∙ ap (update (is_place id place) (marked v (if v then some e.occurred_at else none)))
                before,
      )

-- A place of the artifact that is in `seen` stands in the state that the files give it.
abbrev pub Settled : (String → Bool) → String → (String → Bool) → LocationRow → Type 0
Settled test id seen p =
    p.object_id ≡ id
    → seen p.location ≡ true
    → p.state ≡ (if test p.location then "present" else "lost")

abbrev pub names_of : List LocationRow → List (String × String)
names_of rows = map (λ p. (p.object_id, p.location)) rows

module _ (test : String → Bool) (id : String) where
  pub settle :
      (seen : String → Bool) (place : String) (at : Option String) (rows : List LocationRow)
      → All (Settled test id seen) rows
      → All
          (Settled test id (λ x. seen x || x == place))
          (update (is_place id place) (marked (test place) at) rows)
  unfolding update
  settle seen place at [] h = tt
  settle seen place at (p ∷ ps) (old, h) = elim (Bool-cases (is_place id place p)) [
    | inl hit ↦ rw hit (
      λ _ _.
          ap (λ x. if test x then "present" else "lost")
            (sym ((eq_iff p.location place).0 (and_right (p.object_id == id) _ hit))),
      settle seen place at ps h,
    )
    | inr miss ↦ rw miss (λ about k. old about (kept about miss k), settle seen place at ps h)
  ]
    where
      kept :
          p.object_id ≡ id
          → is_place id place p ≡ false
          → (seen p.location || p.location == place) ≡ true
          → seen p.location ≡ true
      kept about miss k = ground (arith, (eq_iff p.object_id id).1 about, miss, k)

  pub names_of-update :
      (place : String) (v : Bool) (at : Option String) (rows : List LocationRow)
      → names_of (update (is_place id place) (marked v at) rows) ≡ names_of rows
  unfolding update
  names_of-update place v at [] = refl
  names_of-update place v at (p ∷ ps) = elim (Bool-cases (is_place id place p)) [
    | inl hit ↦ rw hit (ap (λ xs. (p.object_id, p.location) ∷ xs) (names_of-update place v at ps))
    | inr miss ↦ rw miss (ap (λ xs. (p.object_id, p.location) ∷ xs) (names_of-update place v at ps))
  ]

  pub loosen :
      (seen later : String → Bool) (rows : List LocationRow)
      → ((x : String) → later x ≡ true → seen x ≡ true)
      → All (Settled test id seen) rows
      → All (Settled test id later) rows
  loosen seen later [] h a = tt
  loosen seen later (p ∷ ps) h (old, a) =
      (λ about k. old about (h p.location k), loosen seen later ps h a)

pub or_assoc : (a b c : Bool) → (a || (b || c)) ≡ true → ((a || b) || c) ≡ true
or_assoc a b c h = ground arith

abbrev pub failing : (String → Bool) → List LocationRow → List String
failing test places = map (λ p. p.location) (select (λ p. not (test p.location)) places)

pub failing_step :
    (b : Bool) (p : LocationRow) (rest : List LocationRow) (fs : List String)
    → fs ≡ map (λ r. r.location) rest
    → (if b then fs else p.location ∷ fs) ≡ map (λ r. r.location) (if not b then p ∷ rest else rest)
failing_step true p rest fs h = h
failing_step false p rest fs h = ap (λ xs. p.location ∷ xs) h
