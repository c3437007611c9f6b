-- ===== src/Config/Ladder.antt =====
-- What config.py `_goals` promises of the goals that it returns.
use lean_evolve.Prelude.{
  ℕ, suc, ◌≤◌, String, ◌≡◌, subst, Bool, true, false, ◌&&◌, List, [], ◌∷◌, mem, ok, raise_if,
  >>=-eq-ok, raise_if-eq-ok, raise_if-not-eq-ok, ok-injective, leb, ltb, not, arith,
}
use lean_evolve.Value.{Value, get, array, Items, nil, cons}
use lean_evolve.Artifacts.Files.{Codec}
use lean_evolve.Config.Names.{is_goal_name, is_lean_name}
use lean_evolve.Config.Goals.{
  Goal, or_raise, invalid_name, duplicate_name, invalid_declaration, no_target_type,
  weight_out_of_range, no_text_array, duplicate_dependency, unknown_dependency,
  description_not_text, fields_at, weight_in, depends_in, description_in, matching, is_filled,
  all_distinct, subset, million, read_goal, read_goals, goals,
}

-- What a goal has passed, behind goals with the names `seen`: a new name, dependencies on earlier
-- goals only, and a weight above 0 and up to a million.
pub record IsStep (seen : List String) (g : Goal) : Type 0 where
  pub new_name : mem g.name seen ≡ false
  pub earlier : subset g.depends_on seen ≡ true
  pub positive : 1 ≤ g.weight
  pub at_most : g.weight ≤ million

-- Every goal of a list has passed this behind the goals before it.
abbrev pub IsLadder : List String → List Goal → Type 0
IsLadder seen [] = Unit
IsLadder seen (g ∷ gs) = IsStep seen g × IsLadder (g.name ∷ seen) gs

in_range : (n : ℕ) → (ltb 0 n && leb n million) ≡ true → (1 ≤ n) × (n ≤ million)
in_range n h = (ground (arith, h), ground (arith, h))

module _ (codec : Codec) (is_space : ℕ → Bool) where
  read_goal-IsStep :
      (index : ℕ) (seen : List String) (v : Value) (g : Goal)
      → read_goal codec is_space index seen v ≡ ok g
      → IsStep seen g
  unfolding read_goal
  read_goal-IsStep index seen v g h =
      let (raw, _, h1) = >>=-eq-ok (fields_at codec is_space index v) _ h in
      let (name, _, h2) =
        >>=-eq-ok (or_raise (invalid_name index) (matching is_goal_name (get "name" raw))) _ h1 in
      let (_, fresh, h3) = >>=-eq-ok (raise_if (mem name seen) (duplicate_name name)) _ h2 in
      let (declaration, _, h4) =
        >>=-eq-ok
          (or_raise (invalid_declaration name) (matching is_lean_name (get "declaration" raw))) _
          h3 in
      let (target, _, h5) =
        >>=-eq-ok
          (or_raise (no_target_type name)
            (matching (is_filled codec is_space) (get "target_type" raw)))
          _ h4 in
      let (weight, _, h6) = >>=-eq-ok (weight_in codec is_space name (get "weight" raw)) _ h5 in
      let (_, bounded, h7) =
        >>=-eq-ok (raise_if (not (ltb 0 weight && leb weight million)) (weight_out_of_range name)) _
          h6 in
      let (depends, _, h8) =
        >>=-eq-ok (or_raise (no_text_array name) (depends_in codec is_space raw)) _ h7 in
      let (_, _, h9) =
        >>=-eq-ok (raise_if (not (all_distinct depends)) (duplicate_dependency name)) _ h8 in
      let (_, known, h10) =
        >>=-eq-ok (raise_if (not (subset depends seen)) (unknown_dependency name)) _ h9 in
      let (description, _, h11) =
        >>=-eq-ok (or_raise (description_not_text name) (description_in codec is_space raw)) _
          h10 in
      let (low, high) = in_range weight (raise_if-not-eq-ok _ _ bounded) in
      subst (IsStep seen) (ok-injective h11) (record {
        new_name = raise_if-eq-ok _ _ fresh;
        earlier = raise_if-not-eq-ok _ _ known;
        positive = low;
        at_most = high;
      })

  read_goals-IsLadder :
      (index : ℕ) (seen : List String) (vs : Items) (gs : List Goal)
      → read_goals codec is_space index seen vs ≡ ok gs
      → IsLadder seen gs
  unfolding read_goals
  read_goals-IsLadder index seen nil gs h = subst (IsLadder seen) (ok-injective h) tt
  read_goals-IsLadder index seen (cons v vs) gs h =
      let (g, read, h1) = >>=-eq-ok (read_goal codec is_space index seen v) _ h in
      let (rest, others, h2) =
        >>=-eq-ok (read_goals codec is_space (suc index) (g.name ∷ seen) vs) _ h1 in
      subst (IsLadder seen) (ok-injective h2) (
        read_goal-IsStep index seen v g read,
        read_goals-IsLadder (suc index) (g.name ∷ seen) vs rest others,
      )

  -- Of the goals that `_goals` returns, each has a name that no goal before it has, depends only on goals
  -- before it, and has a weight above 0 and up to a million.
  pub goals-IsLadder :
      (v : Value) (gs : List Goal) → goals codec is_space v ≡ ok gs → IsLadder [] gs
  unfolding goals
  goals-IsLadder (array (cons v vs)) gs h = read_goals-IsLadder 0 [] (cons v vs) gs h
  goals-IsLadder (array nil) gs h = absurd (ground arith)
  goals-IsLadder _ gs h = absurd (ground arith)
