-- ===== src/Tests/Chain.antt =====
-- Two histories of one event under one head hash.
use lean_evolve.Prelude.{
  ℕ, String, ◌≡◌, refl, sym, ap, ◌∙◌, ◌⊎◌, inl, inr, Bool, true, false, ◌&&◌, Option, none, some,
  List, [], ◌∷◌, mem, nat_eq, nat_eq_sound, ◌≢◌, is_some, Bool-cases, ◌==◌, arith, eq_iff, some_inj,
  if◌then◌else◌,
}
use lean_evolve.Value.{
  Value, null, int, str, dict, Fields, empty, entry, get, Host, value_eq, value_eq_sound,
}
use lean_evolve.Events.{Event, event_format, genesis_hash, hashed_core, digest, compute_hash}
use lean_evolve.Events.Chain.{IsChain}
use lean_evolve.Events.Chain.Anchor.{is_plain, IsCanonical, AreSame, Forgery, head_hash-determines}

abbrev words : List String
words = event_format ∷ "a" ∷ "evaluator" ∷ "note" ∷ genesis_hash ∷ []

abbrev event : Event
event = record {
  id = 1;
  occurred_at = "a";
  recorded_at = "a";
  actor_class = "evaluator";
  actor_id = "a";
  action = "note";
  subject_type = "a";
  subject_id = "a";
  payload = dict empty;
  evidence_object_id = some "a";
  campaign_id = some "a";
  epoch_id = some "a";
  turn_id = some "a";
  idempotency_key = none;
  previous_event_hash = genesis_hash;
  event_hash = "{core}";
}

-- The same event, recorded at another time: what is hashed does not say when.
abbrev later : Event
later = record event { recorded_at = "b" }

-- A `json` that writes the words, the number 1, the empty dict and what is hashed of the event.
abbrev text : Value → Option String
text (str s) = if mem s words then some s else none
text (int false n) = if nat_eq n 1 then some "1" else none
text (dict empty) = some "{}"
text (dict (entry k v d)) =
    if value_eq (dict (entry k v d)) (hashed_core event) then some "{core}" else none
text _ = none

abbrev small : Host
small = record { dumps = text; loads = λ t. null; sha256 = λ t. t }

differ : (a b : String) → (a == b) ≡ false → a ≢ b
differ a b h e = ground (arith, (eq_iff a b).1 e)

-- An `if` that gives a text has taken its first branch.
if-some : (b : Bool) (s t : String) → (if b then some s else none) ≡ some t → (b ≡ true) × (s ≡ t)
if-some true s t h = (refl, some_inj h)
if-some false s t h = absurd (ground arith)

event-IsChain : IsChain small (event ∷ [])
unfolding compute_hash digest hashed_core value_eq
event-IsChain = (record { numbered = refl; linked = refl; sealed = refl }, tt)

later-IsChain : IsChain small (later ∷ [])
unfolding compute_hash digest hashed_core value_eq
later-IsChain = (record { numbered = refl; linked = refl; sealed = refl }, tt)

-- Every value under a key can be written.
abbrev all_written : Fields → Bool
all_written empty = true
all_written (entry k v d) = is_some (text v) && all_written d

is_some-witness : (o : Option String) → is_some o ≡ true → (s : String) × (o ≡ some s)
is_some-witness none h = absurd (ground arith)
is_some-witness (some s) h = (s, refl)

written :
    (k : String) (v : Value) (d : Fields)
    → all_written d ≡ true
    → get k d ≡ some v
    → (s : String) × (text v ≡ some s)
written k v empty h g = absurd (ground arith)
written k v (entry j w d) h g = elim (Bool-cases (k == j)) [
  | inl here ↦
      let same : w ≡ v = some_inj (rw here at g) in
      is_some-witness (text v) (ap (λ x. is_some (text x)) (sym same) ∙ ground (arith, h))
  | inr there ↦ written k v d (ground (arith, h)) (rw there at g)
]

fields_inj : (d e : Fields) → dict d ≡ dict e → d ≡ e
fields_inj d e h = ground arith

is_core :
    (j : String) (w : Value) (d : Fields) (t : String)
    → text (dict (entry j w d)) ≡ some t
    → (dict (entry j w d) ≡ hashed_core event) × (t ≡ "{core}")
is_core j w d t p =
    let (same, says) = if-some (value_eq (dict (entry j w d)) (hashed_core event)) "{core}" t p in
    (value_eq_sound _ _ same, sym says)

one_dict : (d e : Fields) (t : String) → text (dict d) ≡ some t → text (dict e) ≡ some t → d ≡ e
one_dict empty empty t p q = refl
one_dict empty (entry k v e) t p q =
    absurd (differ "{}" "{core}" refl (some_inj p ∙ (is_core k v e t q).1))
one_dict (entry j w d) empty t p q =
    absurd (differ "{}" "{core}" refl (some_inj q ∙ (is_core j w d t p).1))
one_dict (entry j w d) (entry k v e) t p q =
    fields_inj _ _ ((is_core j w d t p).0 ∙ sym (is_core k v e t q).0)

core-written : (d : Fields) → dict d ≡ hashed_core event → all_written d ≡ true
unfolding hashed_core value_eq
core-written d h = ap all_written (fields_inj _ _ h)

dict-written : (d : Fields) (t : String) → text (dict d) ≡ some t → all_written d ≡ true
dict-written empty t p = refl
dict-written (entry j w d) t p = core-written (entry j w d) (is_core j w d t p).0

-- No word is written like a number.
no_number :
    (a : String) (n : ℕ) (t : String) → text (str a) ≡ some t → text (int false n) ≡ some t → ⊥
no_number a n t p q =
    let (known, is_a) = if-some (mem a words) a t p in
    let (one, is_one) = if-some (nat_eq n 1) "1" t q in
    let same : a ≡ "1" = is_a ∙ sym is_one in
    let word : mem "1" words ≡ true = ap (λ x. mem x words) (sym same) ∙ known in
    ground (arith, word)

one_plain :
    (a b : Value) (t : String)
    → is_plain a ≡ true
    → is_plain b ≡ true
    → text a ≡ some t
    → text b ≡ some t
    → a ≡ b
one_plain (str a) (str b) t f g p q =
    ap str ((if-some (mem a words) a t p).1 ∙ sym (if-some (mem b words) b t q).1)
one_plain (str a) (int false n) t f g p q = absurd (no_number a n t p q)
one_plain (int false n) (str a) t f g p q = absurd (no_number a n t q p)
one_plain (int false m) (int false n) t f g p q =
    let at_m = nat_eq_sound m 1 (if-some (nat_eq m 1) "1" t p).0 in
    let at_n = nat_eq_sound n 1 (if-some (nat_eq n 1) "1" t q).0 in ap (int false) (at_m ∙ sym at_n)
one_plain _ _ t f g p q = absurd (ground arith)

small-IsCanonical : IsCanonical small
small-IsCanonical = record {
  plain = one_plain;
  members = λ d e t p q k v g.
      let (s, says) = written k v d (dict-written d t p) g in
      (v, s, ap (get k) (sym (one_dict d e t p q)) ∙ g, says, says);
}

head_hash-determines_example :
    AreSame small (event ∷ []) (later ∷ []) ⊎ Forgery small (event ∷ []) (later ∷ [])
head_hash-determines_example =
    head_hash-determines small small-IsCanonical (event ∷ []) (later ∷ []) event-IsChain
      later-IsChain refl
