-- ===== src/Derive/Trust.antt =====
-- Where truth comes from in a ledger that the program wrote (ledger/derive.py `truth_of`).
use lean_evolve.Prelude.{
  maybe, leb, ℕ, String, ◌≡◌, ◌≢◌, refl, sym, ap, subst, ◌∙◌, inl, inr, Bool, true, false, not,
  ◌&&◌, Option, none, some, List, [], ◌∷◌, ◌++◌, map, select, any, Member, Member-reverse,
  Member-select, Member-map, map-Member, All-Member, any-Member, is_some, eq_iff, arith, ◌==◌,
  if◌then◌else◌, ok, ok-injective,
}
use lean_evolve.Value.{Host}
use lean_evolve.Vocabulary.Authority.{evaluator_actions-authorize}
use lean_evolve.Vocabulary.Actions.{EventAction}
use lean_evolve.Vocabulary.Validate.{require_event_action}
use lean_evolve.Events.{Event, EventRow, event_from_row}
use lean_evolve.Store.Tables.{
  Ledger, ConnectionRow, ConnectionRecord, events_of, connections, connection_from_row,
  object_exists, in_query, in_edges,
}
use lean_evolve.Store.Growth.{IsLawful, IsSound, history}
use lean_evolve.Store.Append.{evidence_known}
use lean_evolve.Store.Soundness.{Reachable, Reachable-IsSound}
use lean_evolve.Derive.{is_proved, property_is, refutes, truth_of, stood_at}
use lean_evolve.Vocabulary.Named.{Member-require_event_action}
use lean_evolve.Derive.Truth.{Stands, is_proved-Stands}

Member-here : {A : Type 0} (xs : List A) (x : A) (ys : List A) → Member x (xs ++ x ∷ ys)
Member-here [] x ys = inl refl
Member-here (y ∷ xs) x ys = inr (Member-here xs x ys)

certificate-Member : (es : List Event) (s : Stands es) → Member s.certificate es
certificate-Member es s =
    subst (Member s.certificate) (sym s.split) (Member-here s.before s.certificate s.later)

-- A test that must have evidence does have it.
abbrev certified_action : EventAction
certified_action = record {
  name = "kernel_certified";
  subject_types = "object" ∷ [];
  actors = "authoritative_evaluator" ∷ [];
  required_payload =
      "declaration" ∷ "proposition_sha256" ∷ "toolchain" ∷ "evaluator_version" ∷ "axiom_policy"
      ∷ [];
  optional_payload = [];
  requires_evidence = true;
}

found_certified : require_event_action "kernel_certified" ≡ ok certified_action
unfolding require_event_action
found_certified = refl

&&-left : (a b : Bool) → (a && b) ≡ true → a ≡ true
&&-left a b h = ground arith

&&-right : (a b : Bool) → (a && b) ≡ true → b ≡ true
&&-right a b h = ground arith

pub texts_differ : (a b : String) → (a == b) ≡ false → a ≢ b
texts_differ a b h q = cc (h, (eq_iff a b).1 q)

not_retracted : (o : Option ℕ) → not (is_some o) ≡ true → o ≡ none
not_retracted o h = ground arith

abbrev verdict : Bool → Bool → String
verdict p r = if p then "proved" else if r then "refuted" else "open"

pub three_proved : (p r : Bool) → verdict p r ≡ "proved" → p ≡ true
three_proved true r h = refl
three_proved false true h = absurd (texts_differ "refuted" "proved" refl h)
three_proved false false h = absurd (texts_differ "open" "proved" refl h)

three_refuted : (p r : Bool) → verdict p r ≡ "refuted" → r ≡ true
three_refuted true r h = absurd (texts_differ "proved" "refuted" refl h)
three_refuted false true h = refl
three_refuted false false h = absurd (texts_differ "open" "refuted" refl h)

module _ (host : Host) where
  -- An event of the history, not after `until`, that certifies the object: emitted by the evaluator,
  -- with an artifact or other object of the ledger as its evidence.
  pub record IsCertified (l : Ledger) (object_id : String) (until : Option ℕ) : Type 0 where
    pub certificate : Event
    pub recorded : Member certificate (history host l)
    pub in_time : maybe true (λ n. leb certificate.id n) until ≡ true
    pub subject : certificate.subject_id ≡ object_id
    pub action : certificate.action ≡ "kernel_certified"
    pub actor : certificate.actor_class ≡ "authoritative_evaluator"
    pub evidence : String
    pub named : certificate.evidence_object_id ≡ some evidence
    pub known : object_exists l evidence ≡ true

  subject_of : (r : EventRow) → (event_from_row host r).subject_id ≡ r.subject_id
  unfolding event_from_row
  subject_of r = refl

  id_of : (r : EventRow) → (event_from_row host r).id ≡ r.id
  unfolding event_from_row
  id_of r = refl

  -- An event that the query returns is in the history, is about the object and is not after `until`.
  events_of-Member :
      (l : Ledger) (object_id : String) (until : Option ℕ) (e : Event)
      → Member e (events_of host l (some object_id) until)
      → Member e (history host l)
        × (e.subject_id ≡ object_id)
        × (maybe true (λ n. leb e.id n) until ≡ true)
  unfolding events_of
  events_of-Member l object_id until e m =
      let query = in_query (some object_id) until in
      let rows = select query l.events in
      let found = map (event_from_row host) rows in
      let (r, n, q) = Member-map (event_from_row host) e rows (Member-reverse e found m) in
      let (k, t) = Member-select r query l.events n in
      (
        subst (λ x. Member x (history host l)) (sym q)
            (map-Member (event_from_row host) r l.events k),
        ap (λ (x : Event). x.subject_id) q
            ∙ subject_of r
            ∙ (eq_iff r.subject_id object_id).0 (&&-left _ _ t),
        ap (λ (x : Event). maybe true (λ n. leb x.id n) until) q
            ∙ ap (λ i. maybe true (λ n. leb i n) until) (id_of r)
            ∙ &&-right (r.subject_id == object_id) _ t,
      )

  -- In a sound ledger an object that counts as proved is certified.
  is_proved-IsCertified :
      (l : Ledger) (object_id : String) (until : Option ℕ)
      → IsSound host l
      → is_proved (events_of host l (some object_id) until) ≡ true
      → IsCertified l object_id until
  is_proved-IsCertified l object_id until sound h =
      let es = events_of host l (some object_id) until in
      let s = (is_proved-Stands es).0 h in
      let e = s.certificate in
      let (m, about, timely) = events_of-Member l object_id until e (certificate-Member es s) in
      let law = All-Member (IsLawful host l) e (history host l) sound.lawful m in
      let same : law.declared ≡ certified_action = ok-injective (
        sym (
          Member-require_event_action e.action law.declared law.contracted.listed
            law.contracted.named)
        ∙ ap require_event_action s.certified
        ∙ found_certified) in
      let (id, named, _) =
        law.contracted.evidenced (ap (λ (a : EventAction). a.requires_evidence) same) in
      let known = subst (λ o. evidence_known o l ≡ true) named law.known in
      record {
        certificate = e;
        recorded = m;
        in_time = timely;
        subject = about;
        action = s.certified;
        actor = evaluator_actions-authorize e.actor_class e.action (inl s.certified) law.permitted;
        evidence = id;
        named = named;
        known = known;
      }

  -- How `truth_of` comes to its answer.
  truth_of-proved :
      (l : Ledger) (object_id : String) (until : Option ℕ)
      → truth_of host l object_id until ≡ "proved"
      → is_proved (events_of host l (some object_id) until) ≡ true
  unfolding truth_of
  truth_of-proved l object_id until h =
      three_proved (is_proved (events_of host l (some object_id) until))
        (any (refutes host l until)
          (connections host l none (some object_id) (some "refutes") false))
        h

  pub truth_of-refuted :
      (l : Ledger) (object_id : String) (until : Option ℕ)
      → truth_of host l object_id until ≡ "refuted"
      → any (refutes host l until) (connections host l none (some object_id) (some "refutes") false)
        ≡ true
  unfolding truth_of
  truth_of-refuted l object_id until h =
      three_refuted (is_proved (events_of host l (some object_id) until))
        (any (refutes host l until)
          (connections host l none (some object_id) (some "refutes") false))
        h

  -- In a ledger that transactions have written, an object counts as proved at an event `until` of its
  -- history only if the history holds, up to there, a `kernel_certified` event about it that the
  -- authoritative evaluator emitted with an object of the ledger as evidence. No other actor and no
  -- other action makes an object proved.
  pub truth_of-IsCertified :
      (l : Ledger) (object_id : String) (until : Option ℕ)
      → Reachable host l
      → truth_of host l object_id until ≡ "proved"
      → IsCertified l object_id until
  truth_of-IsCertified l object_id until r h =
      is_proved-IsCertified l object_id until (Reachable-IsSound host r)
        (truth_of-proved l object_id until h)

  -- An edge that refutes an object at the event `until`: a row of the ledger that stood there and is
  -- not retracted now, with kernel trust, whose source is certified there.
  pub record IsRefuted (l : Ledger) (object_id : String) (until : Option ℕ) : Type 0 where
    pub row : ConnectionRow
    pub recorded : Member row l.connections
    pub target : row.to_id ≡ object_id
    pub relation : row.relation ≡ "refutes"
    pub active : row.retracted_event_id ≡ none
    pub trusted : property_is "trust_level" "kernel" (connection_from_row host row) ≡ true
    pub stood : stood_at until (connection_from_row host row) ≡ true
    pub source : IsCertified l row.from_id until

  -- In a ledger that transactions have written, an object counts as refuted at an event `until` only
  -- through an edge `refutes` to it that stood there, is not retracted now, carries kernel trust and
  -- starts at an object that is certified there: a witness, a computation or an assertion does not
  -- refute.
  pub truth_of-IsRefuted :
      (l : Ledger) (object_id : String) (until : Option ℕ)
      → Reachable host l
      → truth_of host l object_id until ≡ "refuted"
      → IsRefuted l object_id until
  unfolding connections refutes connection_from_row
  truth_of-IsRefuted l object_id until r h =
      let test = in_edges none (some object_id) (some "refutes") false in
      let rows = select test l.connections in
      let all = map (connection_from_row host) rows in
      let (c, m, t) =
        any-Member (refutes host l until) all (truth_of-refuted l object_id until h) in
      let (row, n, q) = Member-map (connection_from_row host) c rows m in
      let (k, u) = Member-select row test l.connections n in
      let u1 = &&-right true _ u in
      let u2 = &&-right (row.to_id == object_id) _ u1 in
      let t2 = &&-right (property_is "trust_level" "kernel" c) _ t in
      record {
        row = row;
        recorded = k;
        target = (eq_iff row.to_id object_id).0 (&&-left _ _ u1);
        relation = (eq_iff row.relation "refutes").0 (&&-left _ _ u2);
        active = not_retracted row.retracted_event_id (&&-right (row.relation == "refutes") _ u2);
        trusted = subst (λ x. property_is "trust_level" "kernel" x ≡ true) q (&&-left _ _ t);
        stood = subst (λ x. stood_at until x ≡ true) q (&&-left _ _ t2);
        source = is_proved-IsCertified l row.from_id until (Reachable-IsSound host r) (
            subst
              (λ (x : ConnectionRecord). is_proved (events_of host l (some x.from_id) until) ≡ true)
              q (&&-right (stood_at until c) _ t2));
      }
