-- ===== src/Events/Prepared.antt =====
-- What `prepare` guarantees of the event that it returns (ledger/events.py).
use lean_evolve.Prelude.{
  ℕ, String, ◌≡◌, refl, sym, ap, subst, ◌∙◌, true, Option, some, not, mem, Except, ok, raise_if,
  raise_as, raise_if-not-eq-ok, >>=-eq-ok, ok-injective, arith,
}
use lean_evolve.Value.{Value, dict, Fields, Host, value_eq, value_eq_sound}
use lean_evolve.Vocabulary.Terms.{subject_types}
use lean_evolve.Vocabulary.Actions.{EventAction}
use lean_evolve.Vocabulary.Validate.{authorize, validate_event_payload, VocabularyError}
use lean_evolve.Vocabulary.Contracts.{IsContracted, validate_event_payload-IsContracted}
use lean_evolve.Events.{
  EventError, Envelope, Draft, Event, EventRow, hashed_core, compute_hash, with_hash, json_safe,
  unhashed, prepare, event_row, event_from_row, row_with, or_raise, validate_identifier,
  unknown_subject_type, vocabulary, subject_type_refused, unencodable, not_serializable,
  no_round_trip,
}

module _ (host : Host) where
  -- The payload can be written, and reads back as itself.
  pub record IsStorable (v : Value) : Type 0 where
    pub text : String
    pub written : host.dumps v ≡ some text
    pub read : host.loads text ≡ v

  or_raise-eq-ok :
      {A : Type 0} {a : A} (o : Option A) (e : EventError) → or_raise o e ≡ ok a → o ≡ some a
  or_raise-eq-ok o e h = ground arith

  raise_as-eq-ok :
      {A : Type 0} {a : A} (m : Except VocabularyError A) → raise_as vocabulary m ≡ ok a → m ≡ ok a
  raise_as-eq-ok m h = ground arith

  pub json_safe-IsStorable :
      (payload : Fields) {v : Value}
      → json_safe host payload ≡ ok v
      → IsStorable v × ((t : String) × (host.dumps (dict payload) ≡ some t) × (host.loads t ≡ v))
  unfolding json_safe
  json_safe-IsStorable payload h =
      let (encoded, p, h1) =
        >>=-eq-ok (or_raise (host.dumps (dict payload)) not_serializable) _ h in
      let decoded = host.loads encoded in
      let (again, q, h2) = >>=-eq-ok (or_raise (host.dumps decoded) unencodable) _ h1 in
      let (u, r, h3) =
        >>=-eq-ok (raise_if (not (value_eq decoded (host.loads again))) no_round_trip) _ h2 in
      let same = value_eq_sound decoded (host.loads again) (raise_if-not-eq-ok _ _ r) in
      let e = ok-injective h3 in
      subst
        (λ w.
          IsStorable w × ((t : String) × (host.dumps (dict payload) ≡ some t) × (host.loads t ≡ w)))
        e
        (
          record { text = again; written = or_raise-eq-ok _ _ q; read = sym same },
          (encoded, or_raise-eq-ok _ _ p, refl),
        )

  -- The event of an accepted draft, with the entry of its action in the vocabulary: the actor may
  -- emit it, the payload keeps the contract of the action and can be stored, the hash is the digest
  -- of what the event commits to, and the rest is taken from the arguments.
  pub record IsPrepared (now : String) (event_id : ℕ) (envelope : Envelope) (draft : Draft)
      (previous : String) (e : Event) : Type 0 where
    pub declared : EventAction
    pub permitted : authorize envelope.actor_class draft.action ≡ ok tt
    pub contracted : IsContracted draft.action draft.payload draft.evidence_object_id declared
    pub subject : mem draft.subject_type declared.subject_types ≡ true
    pub payload : Value
    pub storable : IsStorable payload
    pub source :
        (t : String) × (host.dumps (dict draft.payload) ≡ some t) × (host.loads t ≡ payload)
    pub hash : String
    pub built :
        e
        ≡ record (unhashed host now event_id envelope draft previous payload) { event_hash = hash }
    pub hashed : compute_hash host e ≡ some hash

  pub prepare-IsPrepared :
      (now : String) (event_id : ℕ) (envelope : Envelope) (draft : Draft) (previous : String)
      {e : Event}
      → prepare host now event_id envelope draft previous ≡ ok e
      → IsPrepared now event_id envelope draft previous e
  unfolding prepare with_hash compute_hash hashed_core
  prepare-IsPrepared now event_id envelope draft previous h =
      let (u1, p1, h1) =
        >>=-eq-ok
          (raise_if (not (mem draft.subject_type subject_types))
            (unknown_subject_type draft.subject_type))
          _ h in
      let (u2, p2, h2) = >>=-eq-ok (validate_identifier draft.subject_id "subject_id") _ h1 in
      let (u3, p3, h3) = >>=-eq-ok (validate_identifier envelope.actor_id "actor_id") _ h2 in
      let (u4, p4, h4) =
        >>=-eq-ok (raise_as vocabulary (authorize envelope.actor_class draft.action)) _ h3 in
      let (declared, p5, h5) =
        >>=-eq-ok
          (raise_as vocabulary
            (validate_event_payload draft.action draft.payload draft.evidence_object_id))
          _ h4 in
      let (u6, p6, h6) =
        >>=-eq-ok
          (raise_if (not (mem draft.subject_type declared.subject_types))
            (subject_type_refused draft.action draft.subject_type))
          _ h5 in
      let (payload, p7, h7) = >>=-eq-ok (json_safe host draft.payload) _ h6 in
      let event = unhashed host now event_id envelope draft previous payload in
      let (hash, p8, h8) = >>=-eq-ok (or_raise (compute_hash host event) unencodable) _ h7 in
      let e = ok-injective h8 in
      let stored = json_safe-IsStorable draft.payload p7 in
      record {
        declared = declared;
        permitted = raise_as-eq-ok (authorize envelope.actor_class draft.action) p4;
        contracted =
            (validate_event_payload-IsContracted draft.action draft.payload draft.evidence_object_id
                declared).0
              (raise_as-eq-ok _ p5);
        subject = raise_if-not-eq-ok _ _ p6;
        payload = payload;
        storable = stored.0;
        source = stored.1;
        hash = hash;
        built = sym e;
        hashed =
            subst (λ x. compute_hash host x ≡ some hash) e
              (or_raise-eq-ok (compute_hash host event) unencodable p8);
      }

  -- A prepared event survives the database: its row can be written, and the row reads back as the
  -- event that was prepared.
  pub event_from_row-event_row :
      (now : String) (event_id : ℕ) (envelope : Envelope) (draft : Draft) (previous : String)
      {e : Event}
      → prepare host now event_id envelope draft previous ≡ ok e
      → (row : EventRow) × (event_row host e ≡ some row) × (event_from_row host row ≡ e)
  unfolding event_row event_from_row
  event_from_row-event_row now event_id envelope draft previous {e} h =
      let p = prepare-IsPrepared now event_id envelope draft previous h in
      let same : e.payload ≡ p.payload = ap (λ (x : Event). x.payload) p.built in
      let w : host.dumps e.payload ≡ some p.storable.text =
        ap host.dumps same ∙ p.storable.written in
      (
        row_with host e p.storable.text,
        rw w,
        λ i. record e { payload = (p.storable.read ∙ sym same) i },
      )
