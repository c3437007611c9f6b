-- ===== src/Artifacts/Reverified.antt =====
-- What `reverify` finds and records (ledger/artifacts.py `reverify`).
use lean_evolve.Prelude.{
  String, ◌≡◌, ◌⊎◌, maybe, refl, sym, ap, subst, ◌∙◌, inl, inr, Bool, true, false, not, ◌&&◌, ◌||◌,
  Option, none, some, List, [], ◌∷◌, map, mem, select, Member, Member-map, map-Member,
  Member-select, select-Member, mem-Member, All-Member, All, ◌==◌, Except, ok, if◌then◌else◌, arith,
  eq_iff, Bool-cases, ok-injective,
}
use lean_evolve.Value.{Host}
use lean_evolve.Store.Tables.{LocationRow, ObjectRecord, object}
use lean_evolve.Store.Locations.{locations}
use lean_evolve.Store.Exec.{LedgerError, Session, pure}
use lean_evolve.Store.Artifacts.{verify_location}
use lean_evolve.Store.Edges.View.{>>=-returns}
use lean_evolve.Artifacts.Files.{Bytes, Codec, Files, file_at, path_for, verify}
use lean_evolve.Artifacts.Entered.{place_holds, verify_places, digest_of, reverify}
use lean_evolve.Artifacts.Settled.{
  places_of, and_true, and_left, and_right, verify_location-returns, Settled, names_of, settle,
  names_of-update, loosen, or_assoc, failing, failing_step,
}

module _ (host : Host) (codec : Codec) (root : String) (files : Files) (digest id : String) where
  abbrev test : String → Bool
  test = place_holds codec root files digest

  -- What the loop over the places `ps` leaves, where `later` are places that it or the code before it
  -- has checked.
  verify_places-returns :
      (ps : List LocationRow) (seen later : String → Bool) (s t : Session) (failures : List String)
      → ((x : String) → later x ≡ true → (seen x || mem x (map (λ p. p.location) ps)) ≡ true)
      → All (Settled test id seen) (places_of s)
      → verify_places codec root files host digest id ps s ≡ (ok failures, t)
      → (failures ≡ failing test ps)
        × (names_of (places_of t) ≡ names_of (places_of s))
        × All (Settled test id later) (places_of t)
  unfolding verify_places pure
  verify_places-returns [] seen later s t failures sub h q =
      let end = ap (λ (p : Except LedgerError (List String) × Session). p.1) q in
      (
        sym (ok-injective (ap (λ p. p.0) q)),
        ap (λ x. names_of (places_of x)) (sym end),
        subst (λ x. All (Settled test id later) (places_of x)) end
            (loosen test id seen later (places_of s) (λ x k. ground (arith, sub x k)) h),
      )
  verify_places-returns (p ∷ ps) seen later s t failures sub h q =
      let m = verify_location host id p.location (test p.location) in
      let (_, h1, rest) = >>=-returns m _ s q in
      let s1 = (m s).1 in
      let m2 = verify_places codec root files host digest id ps in
      let (fs, h2, last) = >>=-returns m2 _ s1 rest in
      let (at, moved) =
        verify_location-returns host id p.location (test p.location) s s1 (λ i. (h1 i, s1)) in
      let t1 = (m2 s1).1 in
      let settled =
        subst (All (Settled test id (λ x. seen x || x == p.location))) (sym moved)
          (settle test id seen p.location at (places_of s) h) in
      let (listed_fs, named, all) =
        verify_places-returns ps (λ x. seen x || x == p.location) later s1 t1 fs
          (λ x k.
            or_assoc (seen x) (x == p.location) (mem x (map (λ (r : LocationRow). r.location) ps))
              (sub x k))
          settled (λ i. (h2 i, t1)) in
      let end = ap (λ (r : Except LedgerError (List String) × Session). r.1) last in
      (
        sym (ok-injective (ap (λ (r : Except LedgerError (List String) × Session). r.0) last))
            ∙ failing_step (test p.location) p (select (λ r. not (test r.location)) ps) fs
                listed_fs,
        ap (λ x. names_of (places_of x)) (sym end)
            ∙ named
            ∙ ap names_of moved
            ∙ names_of-update test id p.location (test p.location) at (places_of s),
        subst (λ x. All (Settled test id later) (places_of x)) end all,
      )

  -- A row that the query returns is checked by the loop over what the query returned before.
  listed :
      (p : LocationRow) (rows olds : List LocationRow)
      → names_of rows ≡ names_of olds
      → Member p rows
      → p.object_id ≡ id
      → mem p.location (
          map
            (λ (r : LocationRow). r.location)
            (select (λ r. r.object_id == id && (not false || r.state == "present")) olds))
        ≡ true
  listed p rows olds q m about =
      let (old, n, same) =
        Member-map (λ (r : LocationRow). (r.object_id, r.location)) (p.object_id, p.location) olds
          (subst (Member (p.object_id, p.location)) q
            (map-Member (λ (r : LocationRow). (r.object_id, r.location)) p rows m)) in
      let this = λ (r : LocationRow). r.object_id == id && (not false || r.state == "present") in
      let id_same : id ≡ old.object_id = sym about ∙ ap (λ (x : String × String). x.0) same in
      let hit : this old ≡ true = and_true _ ((eq_iff old.object_id id).1 (sym id_same)) in
      mem-Member p.location _ (
        subst (λ x. Member x (map (λ (r : LocationRow). r.location) (select this olds)))
          (sym (ap (λ (x : String × String). x.1) same))
          (map-Member (λ (r : LocationRow). r.location) old _ (select-Member old this olds n hit)))

  -- The result by the test of the loop.
  reverify-failing :
      (s t : Session) (failures : List String) (o : ObjectRecord)
      → object host s.ledger id ≡ some o
      → digest_of codec o ≡ some digest
      → reverify codec root files host id s ≡ (ok failures, t)
      → (failures ≡ failing test (locations s.ledger id false))
        × ((p : LocationRow)
            → Member p (locations t.ledger id false)
            → p.state ≡ (if test p.location then "present" else "lost"))
  unfolding reverify locations
  reverify-failing s t failures o there named h =
      let places = locations s.ledger id false in
      let (f, n, all) =
        verify_places-returns places (λ x. false)
          (λ x. mem x (map (λ (p : LocationRow). p.location) places)) s t failures (λ x k. k)
          (nothing (places_of s)) (rw (there, named) at h) in
      (
        f,
        λ p m.
            let (k, test_p) = Member-select p _ (places_of t) m in
            let about = (eq_iff p.object_id id).0 (and_left (p.object_id == id) _ test_p) in
            All-Member (Settled test id _) p (places_of t) all k about
              (listed p (places_of t) (places_of s) n k about),
      )
    where
      nothing : (rows : List LocationRow) → All (Settled test id (λ x. false)) rows
      nothing [] = tt
      nothing (r ∷ rows) = (λ about k. absurd (cc k), nothing rows)

  -- There is a file at the place, and its bytes have the digest.
  abbrev pub Holds : String → Type 0
  Holds place = (bytes : Bytes) × (file_at place files ≡ some bytes) × (codec.digest bytes ≡ digest)

  -- The texts are the places, in order, that do not hold the bytes.
  abbrev pub Missing : List LocationRow → List String → Type 0
  Missing [] fs = fs ≡ []
  Missing (p ∷ ps) fs =
      (Holds p.location × Missing ps fs)
      ⊎ ((Holds p.location → ⊥)
          × ((rest : List String) × (fs ≡ p.location ∷ rest) × Missing ps rest))

  held :
      (place : String) (found : Option Bytes)
      → file_at place files ≡ found
      → maybe false (λ bytes. codec.digest bytes == digest) found ≡ true
      → Holds place
  held place none there h = absurd (ground arith)
  held place (some bytes) there h = (bytes, there, (eq_iff (codec.digest bytes) digest).0 h)

  test-Holds : (place : String) → test place ≡ true → Holds place
  unfolding place_holds verify
  test-Holds place h =
      elim (Bool-cases
        (maybe false (λ bytes. codec.digest bytes == digest) (file_at place files))) [
          | inl here ↦ held place (file_at place files) refl here
          | inr no_ ↦
              let at_path = and_left _ _ (rw no_ at h) in
              let there = and_right (path_for root digest == place) _ (rw no_ at h) in
              subst Holds ((eq_iff (path_for root digest) place).0 at_path)
                (held (path_for root digest) _ refl there)
        ]

  Holds-test : (place : String) → Holds place → test place ≡ true
  unfolding place_holds
  Holds-test place (bytes, there, named) =
      rw (there, (eq_iff (codec.digest bytes) digest).1 named) refl

  test-cases :
      (place : String)
      → (Holds place × (test place ≡ true)) ⊎ ((Holds place → ⊥) × (test place ≡ false))
  test-cases place = elim (Bool-cases (test place)) [
    | inl yes_ ↦ inl (test-Holds place yes_, yes_)
    | inr no_ ↦ inr (λ h. absurd (ground (arith, Holds-test place h, no_)), no_)
  ]

  failing-Missing : (ps : List LocationRow) → Missing ps (failing test ps)
  failing-Missing [] = refl
  failing-Missing (p ∷ ps) = elim (test-cases p.location) [
    | inl (held_, yes_) ↦ rw yes_ (inl (held_, failing-Missing ps))
    | inr (not_held, no_) ↦ rw no_ (inr (not_held, (failing test ps, refl, failing-Missing ps)))
  ]

  -- When `reverify` returns, it returns the places of the artifact, in order, at which no file has
  -- bytes with its digest, and afterwards every place of it where a file has such bytes is present, and
  -- every other place of it is lost.
  pub reverify-returns :
      (s t : Session) (failures : List String) (o : ObjectRecord)
      → object host s.ledger id ≡ some o
      → digest_of codec o ≡ some digest
      → reverify codec root files host id s ≡ (ok failures, t)
      → Missing (locations s.ledger id false) failures
        × ((p : LocationRow)
            → Member p (locations t.ledger id false)
            → (Holds p.location × (p.state ≡ "present"))
              ⊎ ((Holds p.location → ⊥) × (p.state ≡ "lost")))
  reverify-returns s t failures o there named h =
      let (f, states) = reverify-failing s t failures o there named h in
      (
        subst (Missing (locations s.ledger id false)) (sym f)
            (failing-Missing (locations s.ledger id false)),
        λ p m. elim (test-cases p.location) [
          | inl (held_, yes_) ↦
              inl (held_, states p m ∙ ap (λ b. if b then "present" else "lost") yes_)
          | inr (not_held, no_) ↦
              inr (not_held, states p m ∙ ap (λ b. if b then "present" else "lost") no_)
        ],
      )
