-- ===== src/Integrity/Accepts.antt =====
-- The checks of one event, for an event that the vocabulary allows (ledger/integrity.py `_check_chain`,
-- `_check_authority`, `_check_truth_invariants`).
use lean_evolve.Prelude.{
  String, ◌≡◌, refl, sym, ap, ◌∙◌, inl, inr, Bool, true, false, not, ◌&&◌, Option, none, some, List,
  [], ◌∷◌, mem, find, any, Member, ◌==◌, is_some, Option-cases, ok, Bool-cases, arith, eq_iff,
}
use lean_evolve.Value.{
  Value, null, bool, int, float, str, array, dict, other, Fields, get, shape, Host, KeepsFields,
}
use lean_evolve.Vocabulary.Terms.{truth_bearing_actions}
use lean_evolve.Vocabulary.Actions.{EventAction}
use lean_evolve.Vocabulary.Validate.{authorize}
use lean_evolve.Vocabulary.Contracts.{IsContracted, validate_event_payload-IsContracted}
use lean_evolve.Vocabulary.Authority.{evaluator_actions-authorize}
use lean_evolve.Events.{Event}
use lean_evolve.Store.Tables.{Ledger, ObjectRow, object, object_exists}
use lean_evolve.Store.Append.{evidence_known}
use lean_evolve.Store.Growth.{IsLawful}
use lean_evolve.Integrity.{Finding, gather, event_findings, evidence_findings, truth_findings}

is_some-shape : (o : Option Value) → is_some (shape o) ≡ is_some o
is_some-shape none = refl
is_some-shape (some (str s)) = refl
is_some-shape (some null) = refl
is_some-shape (some (bool b)) = refl
is_some-shape (some (int s n)) = refl
is_some-shape (some (float n)) = refl
is_some-shape (some (array xs)) = refl
is_some-shape (some (dict d)) = refl
is_some-shape (some (other s)) = refl

shape-value :
    (o p : Option Value) (v : Value) → shape o ≡ shape p → o ≡ some v → (w : Value) × (p ≡ some w)
shape-value o none v h e =
    absurd (ground (arith, sym (is_some-shape o) ∙ ap is_some h, ap is_some e))
shape-value o (some w) v h e = (w, refl)

-- A contract that a payload keeps is kept by any payload with the same names.
IsContracted-same :
    (action : String) (d e : Fields) (evidence : Option String) (a : EventAction)
    → ((k : String) → shape (get k e) ≡ shape (get k d))
    → IsContracted action d evidence a
    → IsContracted action e evidence a
IsContracted-same action d e evidence a same h = record {
  listed = h.listed;
  named = h.named;
  complete = λ k m.
      let (v, there) = h.complete k m in shape-value (get k d) (get k e) v (sym (same k)) there;
  exact = λ k v there.
      let (w, before) = shape-value (get k e) (get k d) v (same k) there in h.exact k w before;
  evidenced = h.evidenced;
}

find-any :
    {A : Type 0} (test : A → Bool) (xs : List A)
    → any test xs ≡ true
    → is_some (find test xs) ≡ true
find-any test [] h = absurd (ground arith)
find-any test (x ∷ xs) h = elim (Bool-cases (test x)) [
  | inl hit ↦ rw hit refl
  | inr miss ↦ rw miss (find-any test xs (rw miss at h))
]

pub gather_none :
    {A : Type 0} (f : A → List Finding) (xs : List A)
    → ((x : A) → Member x xs → f x ≡ [])
    → gather f xs ≡ []
unfolding gather
gather_none f [] h = refl
gather_none f (x ∷ xs) h = rw (h x (inl refl)) (gather_none f xs (λ y m. h y (inr m)))

object-exists :
    (host : Host) (l : Ledger) (id : String)
    → object_exists l id ≡ true
    → is_some (object host l id) ≡ true
unfolding object object_exists
object-exists host l id h = elim (Option-cases (find (λ (o : ObjectRow). o.id == id) l.objects)) [
  | inl absent ↦
      absurd (ground (arith, rw absent at (find-any (λ (o : ObjectRow). o.id == id) l.objects h)))
  | inr (o, present) ↦ rw present refl
]

evidence-evaluator :
    (action actor : String)
    → authorize actor action ≡ ok tt
    → (mem action truth_bearing_actions && not (actor == "authoritative_evaluator")) ≡ false
evidence-evaluator action actor h = elim (Bool-cases (action == "kernel_certified")) [
  | inr other_action ↦ rw other_action refl
  | inl certifies ↦
      let actor_is =
        evaluator_actions-authorize actor action
          (inl ((eq_iff action "kernel_certified").0 certifies)) h in
      rw (certifies, actor_is) refl
]

module _ (host : Host) (keeps : KeepsFields host) where
  -- A lawful event passes the checks of `_check_authority`.
  pub event_findings-IsLawful :
      (l : Ledger) (e : Event) → IsLawful host l e → event_findings host l e ≡ []
  unfolding event_findings
  event_findings-IsLawful l e h =
      let (t, written, read) = h.source in
      let (d, back, same) = keeps h.supplied t written in
      let payload : e.payload ≡ dict d = sym read ∙ back in
      let contract =
        (validate_event_payload-IsContracted e.action d e.evidence_object_id h.declared).1 (
          IsContracted-same e.action h.supplied d e.evidence_object_id h.declared same
            h.contracted) in
      rw (h.permitted, payload, contract) (evidenced e.evidence_object_id h.known)
    where
      evidenced :
          (o : Option String) → evidence_known o l ≡ true → evidence_findings host l e.id o ≡ []
      evidenced none k = refl
      evidenced (some id) k = rw (object-exists host l id k) refl

  pub truth_findings-IsLawful : (l : Ledger) (e : Event) → IsLawful host l e → truth_findings e ≡ []
  unfolding truth_findings
  truth_findings-IsLawful l e h = rw (evidence-evaluator e.action e.actor_class h.permitted) refl
