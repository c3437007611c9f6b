-- ===== src/Lineage/Path.antt =====
-- lineage.py `write_lineage`, the loop over the parents of the frontier.
use lean_evolve.Prelude.{
  ℕ, zero, suc, String, Bool, true, false, Option, none, some, List, [], ◌∷◌, length, reverse, mem,
  maybe, ◌==◌, if◌then◌else◌,
}

-- A node, less what the loop does not read.
pub record Node : Type 0 where
  pub program_id : String
  pub parent_id : Option String

-- `by_id.get(id)`, from the nodes in their order: the last one with the id
unfoldable pub node_of : String → List Node → Option Node
node_of id [] = none
node_of id (n ∷ ns) =
    let later = node_of id ns in maybe (if id == n.program_id then some n else none) some later

-- `by_id.get(cursor["parent_id"]) if cursor["parent_id"] else None`
unfoldable pub parent_of : List Node → Node → Option Node
unfolding node_of
parent_of nodes n = maybe none (λ id. if id == "" then none else node_of id nodes) n.parent_id

-- The result of the loop: the path from the frontier up, and whether it met a node again.
pub record Walk : Type 0 where
  pub path : List Node
  pub cycle : Bool

abbrev before_rest : Node → Walk → Walk
before_rest n w = record { path = n ∷ w.path; cycle = w.cycle }

-- `while cursor is not None`, on fuel: `none` when it runs out.
unfoldable pub climb : List Node → ℕ → List String → Option Node → Option Walk
unfolding parent_of
climb nodes fuel seen none = some (record { path = []; cycle = false })
climb nodes zero seen (some n) = none
climb nodes (suc fuel) seen (some n) =
    let rest = climb nodes fuel (n.program_id ∷ seen) (parent_of nodes n) in
    if mem n.program_id seen
    then some (record { path = []; cycle = true })
    else maybe none (λ w. some (before_rest n w)) rest

-- The loop from the frontier, and `frontier_path.reverse()`; one iteration more than there are nodes
-- is enough.
unfoldable pub frontier_path : List Node → Option Node → Option Walk
unfolding climb
frontier_path nodes frontier =
    maybe none (λ w. some (record w { path = reverse w.path }))
      (climb nodes (suc (length nodes)) [] frontier)
