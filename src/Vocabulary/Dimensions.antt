-- ===== src/Vocabulary/Dimensions.antt =====
-- The dimensions of derived state and their values (ledger/vocabulary.py STATE_DIMENSIONS and
-- `require_state`; ledger/SEMANTICS.md, "What must never imply what").
use lean_evolve.Prelude.{
  String, ◌≡◌, refl, Bool, true, false, not, ◌&&◌, some, List, [], ◌∷◌, mem, ok, raise_if,
  raise_if-not-eq-ok, >>=-eq-ok, eq_iff, arith, inl, inr, Bool-cases, ◌==◌, Option,
}
use lean_evolve.Vocabulary.Terms.{state_dimensions}
use lean_evolve.Vocabulary.Validate.{
  states_of, require_state, unknown_state, unknown_dimension, required, VocabularyError,
}

abbrev Dimensions : Type 0
Dimensions = List (String × List String)

-- No value of the first list is in the second.
disjoint : List String → List String → Bool
disjoint [] ys = true
disjoint (x ∷ xs) ys = not (mem x ys) && disjoint xs ys

disjoint_sound :
    (v : String) (xs ys : List String) → disjoint xs ys ≡ true → mem v xs ≡ true → mem v ys ≡ false
unfolding disjoint
disjoint_sound v [] ys d p = absurd (ground arith)
disjoint_sound v (x ∷ xs) ys d p = elim (Bool-cases (v == x)) [
  | inl e ↦ rw ((eq_iff v x).0 e) (ground arith)
  | inr e ↦ disjoint_sound v xs ys (ground arith) (rw e at p)
]

-- Every two dimensions of the list are disjoint.
apart : List String → Dimensions → Bool
apart xs [] = true
apart xs ((name, ys) ∷ rest) = disjoint xs ys && apart xs rest

all_apart : Dimensions → Bool
all_apart [] = true
all_apart ((name, xs) ∷ rest) = apart xs rest && all_apart rest

apart_sound :
    (v d : String) (xs ys : List String) (rest : Dimensions)
    → apart xs rest ≡ true
    → mem v xs ≡ true
    → states_of d rest ≡ some ys
    → mem v ys ≡ false
unfolding apart
apart_sound v d xs ys [] a p q = absurd (ground arith)
apart_sound v d xs ys ((name, zs) ∷ rest) a p q = elim (Bool-cases (d == name)) [
  | inl e ↦ let z : zs ≡ ys = ground arith in rw (← z) (disjoint_sound v xs zs (ground arith) p)
  | inr e ↦ apart_sound v d xs ys rest (ground arith) p (rw e at q)
]

all_apart_sound :
    (v c d : String) (xs ys : List String) (dims : Dimensions)
    → all_apart dims ≡ true
    → states_of c dims ≡ some xs
    → states_of d dims ≡ some ys
    → mem v xs ≡ true
    → mem v ys ≡ true
    → c ≡ d
unfolding all_apart
all_apart_sound v c d xs ys [] a p q m n = absurd (ground arith)
all_apart_sound v c d xs ys ((name, zs) ∷ rest) a p q m n = ground (
  arith,
  eq_iff c name,
  eq_iff d name,
  apart_sound v d zs ys rest,
  apart_sound v c zs xs rest,
  all_apart_sound v c d xs ys rest,
)

required-eq-ok :
    {A : Type 0} (e : VocabularyError) (o : Option A) {a : A} → required e o ≡ ok a → o ≡ some a
required-eq-ok e o h = ground arith

require_state-inv :
    (dimension value : String) {x : String}
    → require_state dimension value ≡ ok x
    → (values : List String) × (states_of dimension state_dimensions ≡ some values)
      × (mem value values ≡ true)
unfolding require_state
require_state-inv dimension value h =
    let (values, p, q) =
      >>=-eq-ok (required (unknown_dimension dimension) (states_of dimension state_dimensions)) _
        h in
    let (u, r, s) =
      >>=-eq-ok (raise_if (not (mem value values)) (unknown_state dimension value)) _ q in
    (values, required-eq-ok _ _ p, raise_if-not-eq-ok (mem value values) _ r)

-- A value belongs to one dimension at most: if `require_state` accepts it for two dimensions, they
-- are the same dimension.
pub require_state-disjoint :
    (c d value : String) {x y : String}
    → require_state c value ≡ ok x
    → require_state d value ≡ ok y
    → c ≡ d
unfolding all_apart apart disjoint
require_state-disjoint c d value h k =
    let (xs, p, m) = require_state-inv c value h in
    let (ys, q, n) = require_state-inv d value k in
    all_apart_sound value c d xs ys state_dimensions refl p q m n
