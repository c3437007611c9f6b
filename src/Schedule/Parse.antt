-- ===== src/Schedule/Parse.antt =====
-- workflow/schedule.py: `parse_schedule` and `extract_schedule`.
use Prim.Native.Char.{code}
use lean_evolve.Prelude.{
  ℕ, ◌+◌, String, Bool, true, false, not, ◌&&◌, ◌||◌, Option, none, some, List, [], ◌∷◌, length,
  is_some, maybe, leb, ltb, ◌==◌, nat_eq, Except, ok, err, ◌>>=◌, ◌>>◌, raise_if, if◌then◌else◌,
}
use lean_evolve.Schedule.Texts.{
  Text, Unicode, nonempty, text_eq, drop_while, take_while, behind, split_commas, strip, is_digits,
  to_int,
}

abbrev pub max_turns_per_chunk : ℕ
max_turns_per_chunk = 99

abbrev pub max_chunks : ℕ
max_chunks = 32

-- `MAX_SPOTLIGHT_TURNS` of workflow/spotlight.py
abbrev pub max_spotlight_turns : ℕ
max_spotlight_turns = 25

pub data EpochKind : Type 0 where
  solve : EpochKind
  expand : EpochKind
  spotlight : EpochKind

pub record Epoch : Type 0 where
  pub kind : EpochKind
  pub turns : ℕ
  pub focus : Option Text

pub record Schedule : Type 0 where
  pub style : String
  pub raw : Text
  pub epochs : List Epoch

-- The `WorkflowError`s, a constructor for each message; the last is the ValueError of `int`.
pub data ScheduleError : Type 0 where
  not_positive : ScheduleError
  out_of_range : ScheduleError
  is_empty : ScheduleError
  not_a_spotlight : ScheduleError
  too_long_spotlight : ScheduleError
  too_many_chunks : ScheduleError
  unknown_style : String → ScheduleError
  no_value : ScheduleError
  value_error : ScheduleError

abbrev is_solving : EpochKind → Bool
is_solving solve = true
is_solving expand = false
is_solving spotlight = true

-- `Schedule.solve_turns`
unfoldable pub solve_turns : List Epoch → ℕ
solve_turns [] = 0
solve_turns (e ∷ es) = (if is_solving e.kind then e.turns else 0) + solve_turns es

abbrev is_expansion : EpochKind → Bool
is_expansion solve = false
is_expansion expand = true
is_expansion spotlight = false

-- `Schedule.expansion_count`
unfoldable pub expansion_count : List Epoch → ℕ
expansion_count [] = 0
expansion_count (e ∷ es) = (if is_expansion e.kind then 1 else 0) + expansion_count es

abbrev points : String → Text
points String.[] = []
points (String.◌∷◌ c s) = code c ∷ points s

abbrev pub or_raise : {A : Type 0} → ScheduleError → Option A → Except ScheduleError A
or_raise e none = err e
or_raise e (some a) = ok a

abbrev goal_start : ℕ → Bool
goal_start c = leb b'A' c && leb c b'Z' || (leb b'a' c && leb c b'z' || nat_eq c b'_')

abbrev goal_rest : ℕ → Bool
goal_rest c = goal_start c || (leb b'0' c && leb c b'9' || nat_eq c b'.')

abbrev pub parts_of : Text → List Text
parts_of value = (split_commas value).0 ∷ (split_commas value).1

module _ (u : Unicode) where
  -- `_turns`
  unfoldable pub turns_of : Text → Except ScheduleError ℕ
  turns_of text = do
    let stripped = strip u text
    raise_if (not (is_digits u stripped)) not_positive
    turns ← or_raise value_error (to_int u stripped)
    raise_if (not (leb 1 turns && leb turns max_turns_per_chunk)) out_of_range
    ok turns

  -- The part of `_SPOTLIGHT_PATTERN` behind the goal: `none` if it does not match, `some none` if the
  -- turns are left out.
  abbrev spaces : Text → Option Text
  spaces cs = if nonempty (take_while u.is_space cs) then some (drop_while u.is_space cs) else none

  abbrev is_decimal : ℕ → Bool
  is_decimal c = is_some (u.decimal c)

  abbrev then_ : {A B : Type 0} → Option A → (A → Option B) → Option B
  then_ none f = none
  then_ (some a) f = f a

  unfoldable pub match_turns : Text → Option (Option Text)
  match_turns [] = some none
  match_turns (c ∷ cs) = then_ (spaces (c ∷ cs)) (λ a. then_ (behind (points "for") a) (λ b.
      then_ (spaces b) (λ d.
        let digits = take_while is_decimal d in
        let after = drop_while u.is_space (drop_while is_decimal d) in
        if nonempty digits && (text_eq after (points "turn") || text_eq after (points "turns"))
        then some (some digits)
        else none)))

  -- `_SPOTLIGHT_PATTERN.match`: the goal and the turns
  unfoldable pub match_spotlight : Text → Option (Text × Option Text)
  unfolding match_turns
  match_spotlight [] = none
  match_spotlight (c ∷ cs) =
      if goal_start c
      then then_ (match_turns (drop_while goal_rest cs))
          (λ turns. some (c ∷ take_while goal_rest cs, turns))
      else none

  -- `_parse_spotlight`
  unfoldable pub parse_spotlight : Text → Except ScheduleError Schedule
  unfolding match_spotlight turns_of
  parse_spotlight value = do
    let text = strip u value
    raise_if (not (nonempty text)) is_empty
    found ← or_raise not_a_spotlight (match_spotlight text)
    turns ← turns_of (maybe (b'1' ∷ []) (λ t. t) found.1)
    raise_if (ltb max_spotlight_turns turns) too_long_spotlight
    ok (record {
      style = "spotlight";
      raw = value;
      epochs = record { kind = spotlight; turns = turns; focus = some found.0 } ∷ [];
    })

  -- `for part in parts: …`
  unfoldable pub chunk_epochs : List Text → Except ScheduleError (List Epoch)
  chunk_epochs [] = ok []
  chunk_epochs (part ∷ parts) = do
    turns ← turns_of part
    rest ← chunk_epochs parts
    ok (
        record { kind = solve; turns = turns; focus = none }
        ∷ record { kind = expand; turns = 0; focus = none }
        ∷ rest)

  unfoldable pub parse_chunks : Text → Except ScheduleError Schedule
  unfolding chunk_epochs split_commas
  parse_chunks value = do
    raise_if (not (nonempty (strip u value))) is_empty
    raise_if (ltb max_chunks (length (parts_of value))) too_many_chunks
    epochs ← chunk_epochs (parts_of value)
    ok (record { style = "chunks"; raw = value; epochs = epochs })

  unfoldable pub parse_steps : Text → Except ScheduleError Schedule
  parse_steps value = do
    turns ← turns_of value
    ok (record {
      style = "steps";
      raw = value;
      epochs = record { kind = solve; turns = turns; focus = none } ∷ [];
    })

  -- `parse_schedule`
  unfoldable pub parse_schedule : String → Text → Except ScheduleError Schedule
  unfolding parse_steps parse_spotlight parse_chunks
  parse_schedule style value =
      if style == "steps"
      then parse_steps value
      else if style == "spotlight"
      then parse_spotlight value
      else if not (style == "chunks")
      then err (unknown_style style)
      else parse_chunks value

  -- `extract_schedule`
  unfoldable pub extract_schedule :
      Text → String → List Text → Except ScheduleError (Option Schedule)
  unfolding parse_schedule
  extract_schedule flag style [] = ok none
  extract_schedule flag style (argument ∷ arguments) =
      let rest = extract_schedule flag style arguments in
      if text_eq argument flag
      then elim arguments [
        | [] ↦ err no_value
        | value ∷ _ ↦ parse_schedule style value >>= λ s. ok (some s)
      ]
      else maybe rest (λ value. parse_schedule style value >>= λ s. ok (some s))
          (assigned flag argument)
    where
      -- `argument.split("=", 1)[1]`, if the argument starts with the flag and `=`
      assigned : Text → Text → Option Text
      assigned flag argument = then_ (behind flag argument) (λ t. behind (b'=' ∷ []) t)
