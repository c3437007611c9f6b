-- ===== src/Lineage/Ends.antt =====
-- The loop over the parents in lineage.py `write_lineage`, and its path.
use lean_evolve.Prelude.{
  ℕ, zero, suc, ◌<◌, ◌≤◌, String, ◌≡◌, refl, sym, ap, subst, ◌∙◌, inl, inr, Bool, true, false, not,
  ◌||◌, Option, none, some, List, [], ◌∷◌, length, reverse, mem, select, ◌==◌, Member,
  if◌then◌else◌, Bool-cases, Option-cases, arith, eq_iff, some_inj,
}
use lean_evolve.Lineage.Path.{Node, node_of, parent_of, Walk, climb, frontier_path}

node_of-Member :
    (id : String) (nodes : List Node) (n : Node)
    → node_of id nodes ≡ some n
    → Member n nodes × (n.program_id ≡ id)
unfolding node_of
node_of-Member id [] n h = absurd (ground arith)
node_of-Member id (x ∷ nodes) n h = elim (Option-cases (node_of id nodes)) [
  | inr (later, found) ↦
      let same : later ≡ n = some_inj (rw found at h) in
      let (m, named) = node_of-Member id nodes n (found ∙ ap some same) in (inr m, named)
  | inl missing ↦ elim (Bool-cases (id == x.program_id)) [
    | inl hit ↦
        let same : x ≡ n = some_inj (rw (missing, hit) at h) in
        (
          inl (sym same),
          ap (λ (y : Node). y.program_id) (sym same) ∙ sym ((eq_iff id x.program_id).0 hit),
        )
    | inr miss ↦ absurd (ground (arith, rw (missing, miss) at h))
  ]
]

parent_of-Member : (nodes : List Node) (n p : Node) → parent_of nodes n ≡ some p → Member p nodes
unfolding parent_of
parent_of-Member nodes n p h = elim (Option-cases n.parent_id) [
  | inl root ↦ absurd (ground (arith, rw root at h))
  | inr (id, named) ↦ elim (Bool-cases (id == "")) [
    | inl blank ↦ absurd (ground (arith, rw (named, blank) at h))
    | inr other ↦ (node_of-Member id nodes p (rw (named, other) at h)).0
  ]
]

-- The nodes that are not seen yet.
abbrev unseen : List String → List Node → List Node
unseen seen nodes = select (λ n. not (mem n.program_id seen)) nodes

-- One more id seen leaves no more nodes, and less if a node with it was unseen.
unseen-cons :
    (id : String) (seen : List String) (nodes : List Node)
    → length (unseen (id ∷ seen) nodes) ≤ length (unseen seen nodes)
unseen-cons id seen [] = omega arith
unseen-cons id seen (n ∷ nodes) =
    counted (n.program_id == id) (mem n.program_id seen) n (unseen (id ∷ seen) nodes)
      (unseen seen nodes) (unseen-cons id seen nodes)
  where
    counted :
        (a b : Bool) (x : Node) (xs ys : List Node)
        → length xs ≤ length ys
        → length (if not (a || b) then x ∷ xs else xs) ≤ length (if not b then x ∷ ys else ys)
    counted true true x xs ys h = h
    counted true false x xs ys h = omega (arith, h)
    counted false true x xs ys h = h
    counted false false x xs ys h = omega (arith, h)

unseen-less :
    (n : Node) (seen : List String) (nodes : List Node)
    → Member n nodes
    → mem n.program_id seen ≡ false
    → length (unseen (n.program_id ∷ seen) nodes) < length (unseen seen nodes)
unseen-less n seen [] m h = absurd m
unseen-less n seen (x ∷ nodes) (inl e) h =
    let same : (x.program_id == n.program_id) ≡ true =
      (eq_iff x.program_id n.program_id).1 (ap (λ (y : Node). y.program_id) (sym e)) in
    let fresh : mem x.program_id seen ≡ false =
      ap (λ (y : Node). mem y.program_id seen) (sym e) ∙ h in
    rw (same, fresh) (omega (arith, unseen-cons n.program_id seen nodes))
unseen-less n seen (x ∷ nodes) (inr m) h =
    counted (x.program_id == n.program_id) (mem x.program_id seen) x _ _
      (unseen-less n seen nodes m h)
  where
    counted :
        (a b : Bool) (y : Node) (xs ys : List Node)
        → length xs < length ys
        → length (if not (a || b) then y ∷ xs else xs) < length (if not b then y ∷ ys else ys)
    counted true true y xs ys k = k
    counted true false y xs ys k = omega (arith, k)
    counted false true y xs ys k = k
    counted false false y xs ys k = omega (arith, k)

module _ (nodes : List Node) where
  -- The nodes from a cursor up: each the parent of the one before it, none of them met before, up to a
  -- node without a parent in the run, or up to one that was met before.
  pub data Climbs : List String → Option Node → List Node → Bool → Type 0 where
    top :
        {seen : List String} {cursor : Option Node} {path : List Node} {cycle : Bool}
        → cursor ≡ none
        → path ≡ []
        → cycle ≡ false
        → Climbs seen cursor path cycle
    again :
        {seen : List String} {cursor : Option Node} {path : List Node} {cycle : Bool} (n : Node)
        → cursor ≡ some n
        → mem n.program_id seen ≡ true
        → path ≡ []
        → cycle ≡ true
        → Climbs seen cursor path cycle
    up :
        {seen : List String} {cursor : Option Node} {path : List Node} {cycle : Bool} (n : Node)
        (rest : List Node)
        → cursor ≡ some n
        → mem n.program_id seen ≡ false
        → path ≡ n ∷ rest
        → Climbs (n.program_id ∷ seen) (parent_of nodes n) rest cycle
        → Climbs seen cursor path cycle

  climb-ends :
      (fuel : ℕ) (seen : List String) (cursor : Option Node)
      → ((n : Node) → cursor ≡ some n → Member n nodes)
      → length (unseen seen nodes) < fuel
      → (w : Walk) × (climb nodes fuel seen cursor ≡ some w) × Climbs seen cursor w.path w.cycle
  unfolding climb
  climb-ends fuel seen none inside le =
      (record { path = []; cycle = false }, refl, top refl refl refl)
  climb-ends zero seen (some n) inside le = absurd (omega (arith, le))
  climb-ends (suc fuel) seen (some n) inside le = elim (Bool-cases (mem n.program_id seen)) [
    | inl met ↦ (record { path = []; cycle = true }, rw met refl, again n refl met refl refl)
    | inr fresh ↦
        let less = unseen-less n seen nodes (inside n refl) fresh in
        let (w, ran, climbs) =
          climb-ends fuel (n.program_id ∷ seen) (parent_of nodes n)
            (λ p h. parent_of-Member nodes n p h) (omega (arith, le, less)) in
        (
          record { path = n ∷ w.path; cycle = w.cycle },
          rw (fresh, ran) refl,
          up n w.path refl fresh refl climbs,
        )
  ]

  length-select : (test : Node → Bool) (ns : List Node) → length (select test ns) ≤ length ns
  length-select test [] = omega arith
  length-select test (n ∷ ns) = elim (Bool-cases (test n)) [
    | inl keep ↦ rw keep (omega (arith, length-select test ns))
    | inr drop ↦ rw drop (omega (arith, length-select test ns))
  ]

  -- From a frontier among the nodes the loop ends, on the whole of its fuel at the most, whatever the
  -- parents say: also where they run in a circle. Its path, read from the frontier, goes from a node to
  -- its parent, meets no program twice, and ends at a node without a parent among the nodes, or with
  -- the report of a circle at the first program that would be met again.
  pub frontier_path-Climbs :
      (frontier : Node)
      → Member frontier nodes
      → (w : Walk) × (frontier_path nodes (some frontier)
          ≡ some (record w { path = reverse w.path }))
        × Climbs [] (some frontier) w.path w.cycle
  unfolding frontier_path
  frontier_path-Climbs frontier m =
      let (w, ran, climbs) =
        climb-ends (suc (length nodes)) [] (some frontier)
          (λ n h. subst (λ (x : Node). Member x nodes) (some_inj h) m)
          (omega (arith, length-select (λ n. not (mem n.program_id [])) nodes)) in
      (w, rw ran refl, climbs)
