-- ===== src/Vocabulary/Named.antt =====
-- The declaration of an event action that a name of ledger/vocabulary.py stands for
-- (`require_event_action`).
use lean_evolve.Prelude.{
  find, any, sym, ◌∷◌, [], String, ◌≡◌, refl, ap, subst, ◌∙◌, inl, inr, Bool, true, not, ◌&&◌,
  Option, none, some, List, Member, find-Member, ◌==◌, ok, ok-injective, Bool-cases, arith, eq_iff,
}
use lean_evolve.Vocabulary.Actions.{EventAction, event_actions}
use lean_evolve.Vocabulary.Validate.{
  VocabularyError, required, unknown_event_action, require_event_action,
}

pub required-eq-ok :
    {A : Type 0} {a : A} (e : VocabularyError) (o : Option A) → required e o ≡ ok a → o ≡ some a
required-eq-ok e none h = absurd (ground arith)
required-eq-ok e (some b) h = ap some (ok-injective h)

pub require_event_action-Member :
    (action : String) (a : EventAction)
    → require_event_action action ≡ ok a
    → Member a event_actions × (a.name ≡ action)
unfolding require_event_action
require_event_action-Member action a h =
    let (m, t) =
      find-Member (λ (x : EventAction). x.name == action) event_actions a
        (required-eq-ok (unknown_event_action action) _ h) in
    (m, (eq_iff a.name action).0 t)

-- No name stands twice.
abbrev one_each : List EventAction → Bool
one_each [] = true
one_each (x ∷ xs) = not (any (λ (y : EventAction). y.name == x.name) xs) && one_each xs

event_actions-one_each : one_each event_actions ≡ true
unfolding event_actions
event_actions-one_each = refl

any-Member-name :
    (a : EventAction) (xs : List EventAction) (name : String)
    → Member a xs
    → a.name ≡ name
    → any (λ (y : EventAction). y.name == name) xs ≡ true
any-Member-name a [] name m e = absurd m
any-Member-name a (x ∷ xs) name (inl q) e =
    ground (arith, (eq_iff x.name name).1 (ap (λ (y : EventAction). y.name) (sym q) ∙ e))
any-Member-name a (x ∷ xs) name (inr m) e = ground (arith, any-Member-name a xs name m e)

found_by_name :
    (a : EventAction) (xs : List EventAction)
    → one_each xs ≡ true
    → Member a xs
    → find (λ (x : EventAction). x.name == a.name) xs ≡ some a
found_by_name a [] h m = absurd m
found_by_name a (x ∷ xs) h (inl e) =
    rw ((eq_iff x.name a.name).1 (ap (λ (y : EventAction). y.name) (sym e))) (ap some (sym e))
found_by_name a (x ∷ xs) h (inr m) = elim (Bool-cases (x.name == a.name)) [
  | inl same ↦
      let twice = any-Member-name a xs x.name m (sym ((eq_iff x.name a.name).0 same)) in
      absurd (ground (arith, h, twice))
  | inr apart ↦ rw apart (found_by_name a xs (ground (arith, h)) m)
]

-- A declaration of the table is the one that its name stands for.
pub Member-require_event_action :
    (action : String) (a : EventAction)
    → Member a event_actions
    → a.name ≡ action
    → require_event_action action ≡ ok a
unfolding require_event_action
Member-require_event_action action a m e =
    subst (λ n. require_event_action n ≡ ok a) e
      (ap (required (unknown_event_action a.name))
        (found_by_name a event_actions event_actions-one_each m))
