-- ===== src/Tests/Config.antt =====
-- A configuration with two goals (config.py `_goals`), and a run in which Lean accepts both (kernel.py).
use lean_evolve.Prelude.{ℕ, ◌≡◌, refl, Bool, false, none, some, List, [], ◌∷◌, nat_eq, ok, err}
use lean_evolve.Value.{Value, int, str, array, dict, nil, cons, empty, entry}
use lean_evolve.Artifacts.Files.{Codec}
use lean_evolve.Config.Names.{is_goal_name, is_lean_name, strip}
use lean_evolve.Config.Goals.{Goal, read_goal, read_goals, goals, unknown_dependency}
use lean_evolve.Config.Ladder.{IsLadder, goals-IsLadder}
use lean_evolve.Kernel.Accepts.{accepted_goals}
use lean_evolve.Kernel.Complete.{accepted_goals-goals}

abbrev codec : Codec
codec = record {
  digest = λ b. "";
  encode = λ t. [];
  show = λ v. "";
  to_int = λ v. none;
  to_float = λ v. some 4607182418800017408;
}

abbrev is_space : ℕ → Bool
is_space c = nat_eq c 32

abbrev raw_lemma : Value
raw_lemma = dict (
    entry "name" (str "key_lemma") (
      entry "declaration" (str "Proof.key'")
        (entry "target_type" (str " 1 = 1 ") (entry "weight" (int false 1) empty))))

abbrev raw_main : Value
raw_main = dict (
    entry "name" (str "main") (
      entry "declaration" (str "main") (
        entry "target_type" (str "True") (
          entry "weight" (int false 1)
            (entry "depends_on" (array (cons (str "key_lemma") nil)) empty)))))

abbrev configured : List Goal
configured =
    record {
      name = "key_lemma";
      declaration = "Proof.key'";
      target_type = "1 = 1";
      weight = 4607182418800017408;
      depends_on = [];
      description = "";
    }
    ∷ record {
      name = "main";
      declaration = "main";
      target_type = "True";
      weight = 4607182418800017408;
      depends_on = "key_lemma" ∷ [];
      description = "";
    }
    ∷ []

read : goals codec is_space (array (cons raw_lemma (cons raw_main nil))) ≡ ok configured
unfolding goals read_goals read_goal is_goal_name is_lean_name strip
read = refl

-- A goal before the one that it depends on is refused.
forward :
    goals codec is_space (array (cons raw_main (cons raw_lemma nil)))
    ≡ err (unknown_dependency "main")
unfolding goals read_goals read_goal is_goal_name is_lean_name strip
forward = refl

goals-IsLadder_example : IsLadder [] configured
goals-IsLadder_example =
    goals-IsLadder codec is_space (array (cons raw_lemma (cons raw_main nil))) configured read

accepted_goals-goals_example :
    accepted_goals (λ g. some ("propext" ∷ [])) ("propext" ∷ []) configured
    ≡ "key_lemma" ∷ "main" ∷ []
accepted_goals-goals_example =
    accepted_goals-goals (λ g. some ("propext" ∷ [])) ("propext" ∷ []) codec is_space
      (array (cons raw_lemma (cons raw_main nil))) configured read
      (("propext" ∷ [], refl, refl), (("propext" ∷ [], refl, refl), tt))
