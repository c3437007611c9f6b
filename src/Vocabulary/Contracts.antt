-- ===== src/Vocabulary/Contracts.antt =====
-- `validate_event_payload` of ledger/vocabulary.py, on what a caller supplies with an event, and what it
-- stands for.
use lean_evolve.Prelude.{
  String, ◌≡◌, ◌≢◌, ◌⊎◌, ◌↔◌, refl, ap, subst, ◌∙◌, inl, inr, Bool, true, false, not, ◌&&◌, Option,
  none, some, List, ◌++◌, mem, Member, Member-append, Member-left, Member-right, mem-Member,
  Member-mem, ◌==◌, ok, raise_if, raise_if-eq-ok, ok-injective, >>=-eq-ok, Bool-cases, arith,
  eq_iff,
}
use lean_evolve.Value.{Value, Fields, get}
use lean_evolve.Vocabulary.Actions.{EventAction, event_actions}
use lean_evolve.Vocabulary.Supplied.{
  missing_none, none_missing, unexpected_none, none_unexpected, nonempty_nil,
}
use lean_evolve.Vocabulary.Named.{require_event_action-Member, Member-require_event_action}
use lean_evolve.Vocabulary.Validate.{
  require_event_action, requires_payload, refuses_payload, requires_evidence_artifact, missing,
  nonempty, unexpected, truthy, validate_event_payload,
}

-- An event keeps the contract of its action: it is declared under that name, the required fields are
-- there, there are no fields but the required and the optional ones, and evidence is named if it must
-- be.
pub record IsContracted (action : String) (payload : Fields) (evidence : Option String)
    (declared : EventAction) : Type 0 where
  pub listed : Member declared event_actions
  pub named : declared.name ≡ action
  pub complete :
      (field : String)
      → Member field declared.required_payload
      → (v : Value) × (get field payload ≡ some v)
  pub exact :
      (field : String) (v : Value)
      → get field payload ≡ some v
      → Member field declared.required_payload ⊎ Member field declared.optional_payload
  pub evidenced :
      declared.requires_evidence ≡ true → (id : String) × (evidence ≡ some id) × (id ≢ "")

truthy-text : (o : Option String) → truthy o ≡ true → (id : String) × (o ≡ some id) × (id ≢ "")
truthy-text none h = absurd (ground arith)
truthy-text (some id) h = (id, refl, λ e. absurd (ground (arith, h, (eq_iff id "").1 e)))

text-truthy : (id : String) → id ≢ "" → truthy (some id) ≡ true
text-truthy id h = elim (Bool-cases (id == "")) [
  | inl bare ↦ absurd (h ((eq_iff id "").0 bare))
  | inr there ↦ rw there refl
]

listed_fields :
    (names more : List String) (field : String)
    → mem field (names ++ more) ≡ true
    → Member field names ⊎ Member field more
listed_fields names more field h =
    Member-append field names more (Member-mem field (names ++ more) h)

accepted-IsContracted :
    (action : String) (payload : Fields) (evidence : Option String) (a : EventAction)
    → validate_event_payload action payload evidence ≡ ok a
    → IsContracted action payload evidence a
unfolding validate_event_payload
accepted-IsContracted action payload evidence a h =
    let (declared, p, h1) = >>=-eq-ok (require_event_action action) _ h in
    let lacking = missing declared.required_payload payload in
    let refused = unexpected (declared.required_payload ++ declared.optional_payload) payload in
    let bare = declared.requires_evidence && not (truthy evidence) in
    let (u, q, h2) =
      >>=-eq-ok (raise_if (nonempty lacking) (requires_payload action lacking)) _ h1 in
    let (v, r, h3) =
      >>=-eq-ok (raise_if (nonempty refused) (refuses_payload action refused)) _ h2 in
    let (w, s, h4) = >>=-eq-ok (raise_if bare (requires_evidence_artifact action)) _ h3 in
    let none_bare = raise_if-eq-ok bare _ s in
    let (listed, named) = require_event_action-Member action declared p in
    subst (λ a. IsContracted action payload evidence a) (ok-injective h4)
      (record {
        listed = listed;
        named = named;
        complete =
            missing_none declared.required_payload payload
              (nonempty_nil lacking (raise_if-eq-ok _ _ q));
        exact = λ field v there.
            listed_fields declared.required_payload declared.optional_payload field (
              unexpected_none _ payload (nonempty_nil refused (raise_if-eq-ok _ _ r)) field v
                there);
        evidenced = λ must. truthy-text evidence (ground (arith, must, none_bare));
      })

IsContracted-accepted :
    (action : String) (payload : Fields) (evidence : Option String) (a : EventAction)
    → IsContracted action payload evidence a
    → validate_event_payload action payload evidence ≡ ok a
unfolding validate_event_payload
IsContracted-accepted action payload evidence a h =
    rw
      (
        Member-require_event_action action a h.listed h.named,
        none_missing a.required_payload payload h.complete,
        none_unexpected (a.required_payload ++ a.optional_payload) payload (λ field v there.
            elim (h.exact field v there) [
              | inl m ↦
                  mem-Member field _ (Member-left field a.required_payload a.optional_payload m)
              | inr m ↦
                  mem-Member field _ (Member-right field a.required_payload a.optional_payload m)
            ]),
        named_if_needed a.requires_evidence h.evidenced,
      )
      refl
  where
    named_if_needed :
        (needed : Bool)
        → (needed ≡ true → (id : String) × (evidence ≡ some id) × (id ≢ ""))
        → (needed && not (truthy evidence)) ≡ false
    named_if_needed false k = refl
    named_if_needed true k =
        let (id, there, full) = k refl in
        ap (λ o. not (truthy o)) there ∙ ap not (text-truthy id full)

-- `validate_event_payload` returns an action if and only if it is the declared action of that name,
-- each of its required fields is in the payload, each field of the payload is one of its required or
-- optional ones, and evidence with an id that is not empty is named if it requires evidence.
pub validate_event_payload-IsContracted :
    (action : String) (payload : Fields) (evidence : Option String) (a : EventAction)
    → (validate_event_payload action payload evidence ≡ ok a)
      ↔ IsContracted action payload evidence a
validate_event_payload-IsContracted action payload evidence a = (
  accepted-IsContracted action payload evidence a,
  IsContracted-accepted action payload evidence a,
)
