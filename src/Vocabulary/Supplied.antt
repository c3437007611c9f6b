-- ===== src/Vocabulary/Supplied.antt =====
-- The tests of ledger/vocabulary.py on the names and the values of a `dict`.
use lean_evolve.Prelude.{
  String, ◌≡◌, refl, ap, ◌∙◌, inl, inr, true, false, Option, none, some, List, [], ◌∷◌, mem,
  is_some, Member, Member-mem, ◌==◌, Bool-cases, arith, eq_iff, eq_refl,
}
use lean_evolve.Value.{Value, str, Fields, empty, entry, get, has}
use lean_evolve.Vocabulary.Validate.{missing, nonempty, unexpected, text_in}

pub nonempty_nil : (xs : List String) → nonempty xs ≡ false → xs ≡ []
nonempty_nil [] h = refl
nonempty_nil (x ∷ xs) h = cc

has_value : (o : Option Value) → is_some o ≡ true → (v : Value) × (o ≡ some v)
has_value none h = absurd (ground arith)
has_value (some v) h = (v, refl)

pub missing_none :
    (names : List String) (d : Fields)
    → missing names d ≡ []
    → (k : String) → Member k names
    → (v : Value) × (get k d ≡ some v)
missing_none [] d h k m = absurd m
missing_none (j ∷ names) d h k m = elim (Bool-cases (has j d)) [
  | inr lacking ↦ absurd (ground (arith, rw lacking at h))
  | inl there ↦ elim m [
    | inl e ↦ has_value (get k d) (ap (λ n. has n d) e ∙ there)
    | inr n ↦ missing_none names d (rw there at h) k n
  ]
]

pub none_missing :
    (names : List String) (d : Fields)
    → ((k : String) → Member k names → (v : Value) × (get k d ≡ some v))
    → missing names d ≡ []
none_missing [] d h = refl
none_missing (j ∷ names) d h =
    rw (ap is_some (h j (inl refl)).1) (none_missing names d (λ k m. h k (inr m)))

pub unexpected_none :
    (allowed : List String) (d : Fields)
    → unexpected allowed d ≡ []
    → (k : String) (v : Value) → get k d ≡ some v
    → mem k allowed ≡ true
unexpected_none allowed empty h k v q = absurd (ground (arith, q))
unexpected_none allowed (entry j w d) h k v q = elim (Bool-cases (mem j allowed)) [
  | inr refused ↦ absurd (ground (arith, rw refused at h))
  | inl listed ↦ elim (Bool-cases (k == j)) [
    | inl same ↦ ap (λ s. mem s allowed) ((eq_iff k j).0 same) ∙ listed
    | inr apart ↦ unexpected_none allowed d (rw listed at h) k v (rw apart at q)
  ]
]

pub none_unexpected :
    (allowed : List String) (e : Fields)
    → ((k : String) (v : Value) → get k e ≡ some v → mem k allowed ≡ true)
    → unexpected allowed e ≡ []
none_unexpected allowed empty h = refl
none_unexpected allowed (entry j w e) h = rw (h j w (rw (eq_refl j) refl)) (
    none_unexpected allowed e (λ k v q. elim (Bool-cases (k == j)) [
      | inl same ↦ h k w (rw same refl)
      | inr apart ↦ h k v (rw apart q)
    ]))

pub text_in-Member :
    (names : List String) (v : Value)
    → text_in names v ≡ true
    → (s : String) × (v ≡ str s) × Member s names
text_in-Member names (str s) h = (s, refl, Member-mem s names h)
text_in-Member names _ h = absurd (ground arith)
