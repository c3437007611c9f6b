-- ===== src/Config/Goals.antt =====
-- config.py `_goals`: the goals of a configuration, as they are read and refused.
use lean_evolve.Prelude.{
  ℕ, suc, String, Bool, true, not, ◌&&◌, Option, none, some, List, [], ◌∷◌, mem, maybe, leb, ltb,
  ◌==◌, Except, ok, err, ◌>>=◌, ◌>>◌, raise_if, if◌then◌else◌,
}
use lean_evolve.Value.{Value, int, float, str, array, dict, Items, nil, cons, Fields, get}
use lean_evolve.Artifacts.Files.{Codec}
use lean_evolve.Config.Names.{is_goal_name, is_lean_name, strip}

-- `Goal`; the weight by the bits of the float
pub record Goal : Type 0 where
  pub name : String
  pub declaration : String
  pub target_type : String
  pub weight : ℕ
  pub depends_on : List String
  pub description : String

-- The ValueErrors, a constructor for each message; the last is an OverflowError of `float`.
pub data ConfigError : Type 0 where
  no_goals : ConfigError
  not_an_object : ℕ → ConfigError
  invalid_name : ℕ → ConfigError
  duplicate_name : String → ConfigError
  invalid_declaration : String → ConfigError
  no_target_type : String → ConfigError
  weight_not_numeric : String → ConfigError
  weight_out_of_range : String → ConfigError
  no_text_array : String → ConfigError
  duplicate_dependency : String → ConfigError
  unknown_dependency : String → ConfigError
  description_not_text : String → ConfigError
  too_large_number : String → ConfigError

-- `set(xs) <= set(ys)`
abbrev pub subset : List String → List String → Bool
subset [] ys = true
subset (x ∷ xs) ys = mem x ys && subset xs ys

-- `len(set(xs)) == len(xs)`
abbrev pub all_distinct : List String → Bool
all_distinct [] = true
all_distinct (x ∷ xs) = not (mem x xs) && all_distinct xs

abbrev pub or_raise : {A : Type 0} → ConfigError → Option A → Except ConfigError A
or_raise e none = err e
or_raise e (some a) = ok a

abbrev text_in : Value → Option String
text_in (str s) = some s
text_in v = none

-- The texts of an array that holds nothing else.
abbrev texts_of : Items → Option (List String)
texts_of nil = some []
texts_of (cons (str s) xs) = maybe none (λ ss. some (s ∷ ss)) (texts_of xs)
texts_of (cons v xs) = none

abbrev text_array : Value → Option (List String)
text_array (array xs) = texts_of xs
text_array v = none

abbrev pub matching : (String → Bool) → Option Value → Option String
matching test found =
    maybe none (λ v. maybe none (λ s. if test s then some s else none) (text_in v)) found

-- The bits of the float 1000000.0; floats above 0 are in the order of their bits.
abbrev pub million : ℕ
million = 4696837146684686336

module _ (codec : Codec) (is_space : ℕ → Bool) where
  abbrev pub is_filled : String → Bool
  is_filled s = not (strip is_space s == "")

  abbrev pub fields_at : ℕ → Value → Except ConfigError Fields
  fields_at index (dict d) = ok d
  fields_at index v = err (not_an_object index)

  -- `float(weight)` of an integer or a float
  abbrev pub weight_in : String → Option Value → Except ConfigError ℕ
  weight_in name (some (float bits)) = ok bits
  weight_in name (some (int s n)) = or_raise (too_large_number name) (codec.to_float (int s n))
  weight_in name v = err (weight_not_numeric name)

  abbrev pub depends_in : Fields → Option (List String)
  depends_in raw = maybe (some []) text_array (get "depends_on" raw)

  abbrev pub description_in : Fields → Option String
  description_in raw = maybe (some "") text_in (get "description" raw)

  -- The body of the loop of `_goals`.
  unfoldable pub read_goal : ℕ → List String → Value → Except ConfigError Goal
  read_goal index seen value = do
    raw ← fields_at index value
    name ← or_raise (invalid_name index) (matching is_goal_name (get "name" raw))
    raise_if (mem name seen) (duplicate_name name)
    declaration ←
        or_raise (invalid_declaration name) (matching is_lean_name (get "declaration" raw))
    target_type ← or_raise (no_target_type name) (matching is_filled (get "target_type" raw))
    weight ← weight_in name (get "weight" raw)
    raise_if (not (ltb 0 weight && leb weight million)) (weight_out_of_range name)
    depends_on ← or_raise (no_text_array name) (depends_in raw)
    raise_if (not (all_distinct depends_on)) (duplicate_dependency name)
    raise_if (not (subset depends_on seen)) (unknown_dependency name)
    description ← or_raise (description_not_text name) (description_in raw)
    ok (record {
      name = name;
      declaration = declaration;
      target_type = strip is_space target_type;
      weight = weight;
      depends_on = depends_on;
      description = strip is_space description;
    })

  -- `for index, raw_value in enumerate(value): …`
  unfoldable pub read_goals : ℕ → List String → Items → Except ConfigError (List Goal)
  unfolding read_goal
  read_goals index seen nil = ok []
  read_goals index seen (cons v vs) = do
    g ← read_goal index seen v
    rest ← read_goals (suc index) (g.name ∷ seen) vs
    ok (g ∷ rest)

  -- `_goals`
  unfoldable pub goals : Value → Except ConfigError (List Goal)
  unfolding read_goals
  goals (array (cons v vs)) = read_goals 0 [] (cons v vs)
  goals v = err no_goals
