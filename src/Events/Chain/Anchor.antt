-- ===== src/Events/Chain/Anchor.antt =====
-- Two histories under one head hash (ledger/events.py `hashed_core`, `canonical_json`, the chain).
use lean_evolve.Prelude.{
  ℕ, String, ◌≡◌, ◌≢◌, refl, sym, ap, ◌∙◌, ◌⊎◌, inl, inr, Bool, true, false, Option, none, some,
  List, [], ◌∷◌, Member, Bool-cases, Option-cases, ◌==◌, arith, eq_iff, some_inj,
}
use lean_evolve.Value.{Value, null, int, str, dict, Fields, get, Host}
use lean_evolve.Events.{Event, genesis_hash, optional, hashed_core, digest, compute_hash}
use lean_evolve.Events.Chain.{IsChain, head_hash}

-- `None`, a text, or an integer from 0
abbrev pub is_plain : Value → Bool
is_plain null = true
is_plain (str s) = true
is_plain (int false n) = true
is_plain _ = false

-- What is relied on of `json.dumps` with sorted keys: two plain values have one text only if they are
-- equal, and two dicts have one text only if each key of the one is a key of the other, with values of
-- one text.
pub record IsCanonical (host : Host) : Type 0 where
  pub plain :
      (a b : Value) (t : String)
      → is_plain a ≡ true
      → is_plain b ≡ true
      → host.dumps a ≡ some t
      → host.dumps b ≡ some t
      → a ≡ b
  pub members :
      (d e : Fields) (t : String)
      → host.dumps (dict d) ≡ some t
      → host.dumps (dict e) ≡ some t
      → (k : String) (v : Value) → get k d ≡ some v
      → (w : Value) × (s : String) × (get k e ≡ some w)
        × (host.dumps v ≡ some s)
        × (host.dumps w ≡ some s)

module _ (host : Host) where
  -- Two events that agree in every field that is hashed, the payloads in their canonical text.
  pub record IsSame (x y : Event) : Type 0 where
    pub id : x.id ≡ y.id
    pub occurred_at : x.occurred_at ≡ y.occurred_at
    pub campaign_id : x.campaign_id ≡ y.campaign_id
    pub epoch_id : x.epoch_id ≡ y.epoch_id
    pub turn_id : x.turn_id ≡ y.turn_id
    pub actor_class : x.actor_class ≡ y.actor_class
    pub actor_id : x.actor_id ≡ y.actor_id
    pub action : x.action ≡ y.action
    pub subject_type : x.subject_type ≡ y.subject_type
    pub subject_id : x.subject_id ≡ y.subject_id
    pub payload : host.dumps x.payload ≡ host.dumps y.payload
    pub evidence_object_id : x.evidence_object_id ≡ y.evidence_object_id
    pub previous_event_hash : x.previous_event_hash ≡ y.previous_event_hash

  abbrev pub AreSame : List Event → List Event → Type 0
  AreSame [] [] = Unit
  AreSame [] (y ∷ ys) = ⊥
  AreSame (x ∷ xs) [] = ⊥
  AreSame (x ∷ xs) (y ∷ ys) = IsSame x y × AreSame xs ys

  -- What two histories that differ under one head hash give: an event of each, with two texts and
  -- one SHA-256 of them, or an event of one of them with a text whose SHA-256 is the genesis hash.
  pub data Forgery (xs ys : List Event) : Type 0 where
    collision :
        (x y : Event) (t u : String)
        → Member x xs
        → Member y ys
        → host.dumps (hashed_core x) ≡ some t
        → host.dumps (hashed_core y) ≡ some u
        → t ≢ u
        → host.sha256 t ≡ host.sha256 u
        → Forgery xs ys
    preimage :
        (x : Event) (t : String)
        → Member x xs ⊎ Member x ys
        → host.dumps (hashed_core x) ≡ some t
        → host.sha256 t ≡ genesis_hash
        → Forgery xs ys

  longer : (x y : Event) (xs ys : List Event) → Forgery xs ys → Forgery (x ∷ xs) (y ∷ ys)
  longer x y xs ys (collision a b t u m n p q d e) = collision a b t u (inr m) (inr n) p q d e
  longer x y xs ys (preimage a t (inl m) p e) = preimage a t (inl (inr m)) p e
  longer x y xs ys (preimage a t (inr m) p e) = preimage a t (inr (inr m)) p e

  -- A hash that was computed is that of a text.
  hashed_text :
      (x : Event) (h : String)
      → compute_hash host x ≡ some h
      → (t : String) × (host.dumps (hashed_core x) ≡ some t) × (host.sha256 t ≡ h)
  unfolding compute_hash digest
  hashed_text x h p = elim (Option-cases (host.dumps (hashed_core x))) [
    | inl fails ↦ absurd (ground (arith, rw fails at p))
    | inr (t, text) ↦ (t, text, some_inj (rw text at p))
  ]

  optional-plain : (o : Option String) → is_plain (optional o) ≡ true
  unfolding optional
  optional-plain none = refl
  optional-plain (some s) = refl

  str_inj : (a b : String) → str a ≡ str b → a ≡ b
  str_inj a b e = ground arith

  int_inj : (a b : ℕ) → int false a ≡ int false b → a ≡ b
  int_inj a b e = ground arith

  optional_inj : (a b : Option String) → optional a ≡ optional b → a ≡ b
  unfolding optional
  optional_inj none none e = refl
  optional_inj none (some b) e = absurd (ground arith)
  optional_inj (some a) none e = absurd (ground arith)
  optional_inj (some a) (some b) e = ap some (str_inj a b e)

  module _ (json : IsCanonical host) where
    -- A plain value under a key of two dicts with one text.
    same_plain :
        (d e : Fields) (t : String)
        → host.dumps (dict d) ≡ some t
        → host.dumps (dict e) ≡ some t
        → (k : String) (v w : Value) → get k d ≡ some v
        → get k e ≡ some w
        → is_plain v ≡ true
        → is_plain w ≡ true
        → v ≡ w
    same_plain d e t p q k v w g h pv pw =
        let (u, s, there, a, b) = json.members d e t p q k v g in
        let same : u ≡ w = some_inj (sym there ∙ h) in
        json.plain v w s pv pw a (ap host.dumps (sym same) ∙ b)

    same_text :
        (d e : Fields) (t : String)
        → host.dumps (dict d) ≡ some t
        → host.dumps (dict e) ≡ some t
        → (k : String) (v w : Value) → get k d ≡ some v
        → get k e ≡ some w
        → host.dumps v ≡ host.dumps w
    same_text d e t p q k v w g h =
        let (u, s, there, a, b) = json.members d e t p q k v g in
        let same : u ≡ w = some_inj (sym there ∙ h) in a ∙ sym b ∙ ap host.dumps same

    -- Two events whose hashed fields have one text are the same.
    one_text-IsSame :
        (x y : Event) (t : String)
        → host.dumps (hashed_core x) ≡ some t
        → host.dumps (hashed_core y) ≡ some t
        → IsSame x y
    unfolding hashed_core
    one_text-IsSame x y t p q =
        let plain = same_plain _ _ t p q in
        record {
          id = int_inj _ _ (plain "id" _ _ refl refl refl refl);
          occurred_at = str_inj _ _ (plain "occurred_at" _ _ refl refl refl refl);
          campaign_id = optional_inj _ _ (
              plain "campaign_id" _ _ refl refl (optional-plain x.campaign_id)
                (optional-plain y.campaign_id));
          epoch_id = optional_inj _ _ (
              plain "epoch_id" _ _ refl refl (optional-plain x.epoch_id)
                (optional-plain y.epoch_id));
          turn_id =
              optional_inj _ _ (
                plain "turn_id" _ _ refl refl (optional-plain x.turn_id)
                  (optional-plain y.turn_id));
          actor_class = str_inj _ _ (plain "actor_class" _ _ refl refl refl refl);
          actor_id = str_inj _ _ (plain "actor_id" _ _ refl refl refl refl);
          action = str_inj _ _ (plain "action" _ _ refl refl refl refl);
          subject_type = str_inj _ _ (plain "subject_type" _ _ refl refl refl refl);
          subject_id = str_inj _ _ (plain "subject_id" _ _ refl refl refl refl);
          payload = same_text _ _ t p q "payload" _ _ refl refl;
          evidence_object_id = optional_inj _ _ (
              plain "evidence_object_id" _ _ refl refl (optional-plain x.evidence_object_id)
                (optional-plain y.evidence_object_id));
          previous_event_hash = str_inj _ _ (plain "previous_event_hash" _ _ refl refl refl refl);
        }

    -- The newest events of two chains under one head hash.
    newest :
        (x y : Event) (xs ys : List Event)
        → compute_hash host x ≡ some x.event_hash
        → compute_hash host y ≡ some y.event_hash
        → x.event_hash ≡ y.event_hash
        → IsSame x y ⊎ Forgery (x ∷ xs) (y ∷ ys)
    newest x y xs ys p q e =
        let (t, text, hash) = hashed_text x x.event_hash p in
        let (u, other, hash_y) = hashed_text y y.event_hash q in
        elim (Bool-cases (t == u)) [
          | inl same ↦
              inl (one_text-IsSame x y t text (other ∙ ap some (sym ((eq_iff t u).0 same))))
          | inr apart ↦ inr (
              collision x y t u (inl refl) (inl refl) text other
                (λ s. absurd (ground (arith, apart, (eq_iff t u).1 s))) (hash ∙ e ∙ sym hash_y))
        ]

    -- Where `json` is canonical, two chains that verify and have the same head hash have the same
    -- events, one by one: every field that an event commits to is equal, and the payloads have one
    -- canonical text. Otherwise events of the two chains give two texts with one SHA-256, or a text
    -- whose SHA-256 is the genesis hash.
    pub head_hash-determines :
        (xs ys : List Event)
        → IsChain host xs
        → IsChain host ys
        → head_hash xs ≡ head_hash ys
        → AreSame xs ys ⊎ Forgery xs ys
    head_hash-determines [] [] c d e = inl tt
    head_hash-determines [] (y ∷ ys) c (l, d) e =
        let (t, text, hash) = hashed_text y y.event_hash l.sealed in
        inr (preimage y t (inr (inl refl)) text (hash ∙ sym e))
    head_hash-determines (x ∷ xs) [] (k, c) d e =
        let (t, text, hash) = hashed_text x x.event_hash k.sealed in
        inr (preimage x t (inl (inl refl)) text (hash ∙ e))
    head_hash-determines (x ∷ xs) (y ∷ ys) (k, c) (l, d) e =
        elim (newest x y xs ys k.sealed l.sealed e) [
          | inr forged ↦ inr forged
          | inl same ↦
              elim (head_hash-determines xs ys c d
                (sym k.linked ∙ same.previous_event_hash ∙ l.linked)) [
                  | inr forged ↦ inr (longer x y xs ys forged)
                  | inl rest ↦ inl (same, rest)
                ]
        ]
