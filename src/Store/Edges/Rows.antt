-- ===== src/Store/Edges/Rows.antt =====
-- The table of connections of ledger/store.py: the order of the ids, and what a row stands for.
use lean_evolve.Prelude.{
  ℕ, ◌<◌, ◌≡◌, refl, sym, ap, ◌∙◌, inl, inr, Bool, true, some, List, [], ◌∷◌, ◌++◌, All, Member,
  Bool-cases, arith,
}
use lean_evolve.Value.{dict, Fields, Host}
use lean_evolve.Vocabulary.Accepted.{IsAccepted}
use lean_evolve.Store.Persist.{Persists}
use lean_evolve.Store.Tables.{
  Ledger, ObjectRecord, object, ConnectionRow, next_connection_id, update,
}

-- The ids ascend from `n`.
abbrev pub Ascend : ℕ → List ConnectionRow → Type 0
Ascend n [] = Unit
Ascend n (c ∷ cs) = (n < c.id) × Ascend c.id cs

Ascend-Member :
    (n : ℕ) (cs : List ConnectionRow) (x : ConnectionRow) → Ascend n cs → Member x cs → n < x.id
Ascend-Member n [] x h m = absurd m
Ascend-Member n (c ∷ cs) x (lt, h) (inl e) = omega (arith, lt, ap (λ (r : ConnectionRow). r.id) e)
Ascend-Member n (c ∷ cs) x (lt, h) (inr m) = omega (arith, lt, Ascend-Member c.id cs x h m)

-- An id names one row.
pub Ascend-same :
    (n : ℕ) (cs : List ConnectionRow) (x y : ConnectionRow)
    → Ascend n cs
    → Member x cs
    → Member y cs
    → x.id ≡ y.id
    → x ≡ y
Ascend-same n [] x y h m k q = absurd m
Ascend-same n (c ∷ cs) x y (lt, h) (inl e) (inl f) q = e ∙ sym f
Ascend-same n (c ∷ cs) x y (lt, h) (inl e) (inr k) q =
    absurd (omega (arith, Ascend-Member c.id cs y h k, ap (λ (r : ConnectionRow). r.id) e, q))
Ascend-same n (c ∷ cs) x y (lt, h) (inr m) (inl f) q =
    absurd (omega (arith, Ascend-Member c.id cs x h m, ap (λ (r : ConnectionRow). r.id) f, q))
Ascend-same n (c ∷ cs) x y (lt, h) (inr m) (inr k) q = Ascend-same c.id cs x y h m k q

-- A row with the next id stands behind the others.
pub Ascend-append :
    (cs : List ConnectionRow) (r : ConnectionRow)
    → Ascend 0 cs
    → r.id ≡ next_connection_id cs
    → Ascend 0 (cs ++ r ∷ [])
unfolding next_connection_id
Ascend-append [] r h q = (omega (arith, q), tt)
Ascend-append (c ∷ cs) r (lt, h) q = (lt, behind c cs h q)
  where
    behind :
        (c : ConnectionRow) (cs : List ConnectionRow)
        → Ascend c.id cs
        → r.id ≡ next_connection_id (c ∷ cs)
        → Ascend c.id (cs ++ r ∷ [])
    behind c [] h q = (omega (arith, q), tt)
    behind c (d ∷ cs) (lt, h) q = (lt, behind d cs h q)

-- An update that keeps the ids keeps their order.
pub Ascend-update :
    (test : ConnectionRow → Bool) (f : ConnectionRow → ConnectionRow)
    → ((c : ConnectionRow) → (f c).id ≡ c.id)
    → (n m : ℕ) (cs : List ConnectionRow) → n ≡ m
    → Ascend n cs
    → Ascend m (update test f cs)
unfolding update
Ascend-update test f keep n m [] e h = tt
Ascend-update test f keep n m (c ∷ cs) e (lt, h) = elim (Bool-cases (test c)) [
  | inl yes_ ↦
      rw yes_
        (omega (arith, lt, e, keep c), Ascend-update test f keep c.id (f c).id cs (sym (keep c)) h)
  | inr no_ ↦ rw no_ (omega (arith, lt, e), Ascend-update test f keep c.id c.id cs refl h)
]

All-map :
    {A : Type 0} {P Q : A → Type 0} (xs : List A) → ((x : A) → P x → Q x) → All P xs → All Q xs
All-map [] f h = tt
All-map (x ∷ xs) f (p, h) = (f x p, All-map xs f h)

module _ (host : Host) where
  -- A row between two objects of the ledger `l`, whose kinds and properties its relation takes, with
  -- the properties in stored form.
  pub record IsEdge (l : Ledger) (c : ConnectionRow) : Type 0 where
    pub from : ObjectRecord
    pub to : ObjectRecord
    pub from_there : object host l c.from_id ≡ some from
    pub to_there : object host l c.to_id ≡ some to
    pub supplied : Fields
    pub accepted : IsAccepted c.relation from.kind to.kind supplied
    pub stored : host.dumps (dict supplied) ≡ some c.properties_json

  pub record AreEdges (l : Ledger) (cs : List ConnectionRow) : Type 0 where
    pub ascend : Ascend 0 cs
    pub all : All (IsEdge l) cs

  -- The objects stay, and so do the edges between them.
  pub AreEdges-mono :
      (l m : Ledger) (cs : List ConnectionRow) → Persists host l m → AreEdges l cs → AreEdges m cs
  AreEdges-mono l m cs p h = record {
    ascend = h.ascend;
    all =
        All-map cs
          (λ c edge. record {
            from = edge.from;
            to = edge.to;
            from_there = p.objects_kept c.from_id edge.from edge.from_there;
            to_there = p.objects_kept c.to_id edge.to edge.to_there;
            supplied = edge.supplied;
            accepted = edge.accepted;
            stored = edge.stored;
          })
          h.all;
  }

pub All-append :
    {A : Type 0} (P : A → Type 0) (xs : List A) (y : A) → All P xs → P y → All P (xs ++ y ∷ [])
All-append P [] y h p = (p, tt)
All-append P (x ∷ xs) y (q, h) p = (q, All-append P xs y h p)

-- What holds of all rows holds of them after an update that keeps it where the test holds.
pub All-update :
    {A : Type 0} (P : A → Type 0) (test : A → Bool) (f : A → A) (xs : List A)
    → ((x : A) → Member x xs → test x ≡ true → P x → P (f x))
    → All P xs
    → All P (update test f xs)
unfolding update
All-update P test f [] keep h = tt
All-update P test f (x ∷ xs) keep (p, h) = elim (Bool-cases (test x)) [
  | inl yes_ ↦ rw yes_ (keep x (inl refl) yes_ p, All-update P test f xs (λ y m. keep y (inr m)) h)
  | inr no_ ↦ rw no_ (p, All-update P test f xs (λ y m. keep y (inr m)) h)
]
