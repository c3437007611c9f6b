-- ===== src/Vocabulary/Authority.antt =====
-- Who may emit what (ledger/vocabulary.py `authorize`, and the table of ledger/SEMANTICS.md).
use lean_evolve.Prelude.{
  String, ◌≡◌, sym, ap, ◌∙◌, eq_iff, inl, inr, Bool, true, List, [], ◌∷◌, mem, Among, ok, err,
  raise_if-not-eq-ok, >>=-eq-ok, if◌then◌else◌, arith,
}
use lean_evolve.Vocabulary.Actions.{actors, EventAction}
use lean_evolve.Vocabulary.Validate.{
  Checked, VocabularyError, unknown_actor, may_not_emit, require_actor, require_event_action,
  authorize,
}

if_ok :
    {A : Type 0} (x : A) {y : A} (b : Bool) (e : VocabularyError)
    → (if b then ok x else err e) ≡ ok y
    → b ≡ true
if_ok x b e h = ground arith

-- What an accepted pair of an actor and an action says of the tables.
pub record IsPermitted (actor action : String) : Type 0 where
  pub declared : EventAction
  pub found : require_event_action action ≡ ok declared
  pub known : mem actor actors ≡ true
  pub listed : mem actor declared.actors ≡ true

pub authorize-IsPermitted :
    (actor action : String) → authorize actor action ≡ ok tt → IsPermitted actor action
unfolding authorize
authorize-IsPermitted actor action h =
    let (a, p, q) = >>=-eq-ok (require_actor actor) _ h in
    let (declared, r, s) = >>=-eq-ok (require_event_action action) _ q in
    record {
      declared = declared;
      found = r;
      known = if_ok actor (mem actor actors) (unknown_actor actor) p;
      listed = raise_if-not-eq-ok (mem actor declared.actors) (may_not_emit actor action) s;
    }

singleton_mem : {s : String} (k : String) → mem k (s ∷ []) ≡ true → k ≡ s
singleton_mem {s} k h = ground (arith, eq_iff k s)

-- The actions by which a proof, its evaluation or its promotion enters the ledger.
abbrev pub evaluator_actions : List String
evaluator_actions =
    "kernel_certified" ∷ "authoritative_evaluation_recorded" ∷ "materialization_recorded"
    ∷ "promotion_audited" ∷ "promotion_recorded" ∷ []

abbrev listed_for : Checked EventAction → List String
listed_for (ok a) = a.actors
listed_for (err e) = []

listed_for_evaluator :
    (action : String)
    → Among action evaluator_actions
    → listed_for (require_event_action action) ≡ "authoritative_evaluator" ∷ []
unfolding require_event_action
listed_for_evaluator action (inl e) = rw e
listed_for_evaluator action (inr (inl e)) = rw e
listed_for_evaluator action (inr (inr (inl e))) = rw e
listed_for_evaluator action (inr (inr (inr (inl e)))) = rw e
listed_for_evaluator action (inr (inr (inr (inr (inl e))))) = rw e
listed_for_evaluator action (inr (inr (inr (inr (inr e))))) = absurd e

-- The actions that enter a proof, an evaluation, a materialization or a promotion are accepted
-- from the authoritative evaluator alone: whatever the actor, acceptance says that it is that one.
pub evaluator_actions-authorize :
    (actor action : String)
    → Among action evaluator_actions
    → authorize actor action ≡ ok tt
    → actor ≡ "authoritative_evaluator"
evaluator_actions-authorize actor action among h =
    let p = authorize-IsPermitted actor action h in
    let e : p.declared.actors ≡ "authoritative_evaluator" ∷ [] =
      sym (ap listed_for p.found) ∙ listed_for_evaluator action among in
    singleton_mem actor (ap (mem actor) (sym e) ∙ p.listed)
