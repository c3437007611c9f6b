-- ===== src/Config/Names.antt =====
-- The patterns of config.py, and `str.strip`.
use Prim.Native.Char.{code}
use Prim.Native.String.{String, count}
use lean_evolve.Prelude.{ℕ, Bool, true, false, not, ◌&&◌, ◌||◌, leb, nat_eq, if◌then◌else◌}

abbrev lower : ℕ → Bool
lower c = leb b'a' c && leb c b'z'

abbrev upper : ℕ → Bool
upper c = leb b'A' c && leb c b'Z'

abbrev digit : ℕ → Bool
digit c = leb b'0' c && leb c b'9'

-- `[a-z0-9_]*`
unfoldable goal_chars : String → Bool
goal_chars String.[] = true
goal_chars (String.◌∷◌ c s) =
    (lower (code c) || (digit (code c) || nat_eq (code c) b'_')) && goal_chars s

-- `_GOAL_NAME.fullmatch`
unfoldable pub is_goal_name : String → Bool
unfolding goal_chars
is_goal_name String.[] = false
is_goal_name (String.◌∷◌ c s) = lower (code c) && (goal_chars s && leb (count s) 79)

abbrev name_start : ℕ → Bool
name_start c = upper c || (lower c || nat_eq c b'_')

abbrev apostrophe : ℕ
apostrophe = 39

abbrev name_rest : ℕ → Bool
name_rest c = name_start c || (digit c || nat_eq c apostrophe)

-- What `_LEAN_NAME` matches from the start of a part of a name, or from inside one.
unfoldable lean_name_from : Bool → String → Bool
lean_name_from at_start String.[] = not at_start
lean_name_from true (String.◌∷◌ c s) = name_start (code c) && lean_name_from false s
lean_name_from false (String.◌∷◌ c s) =
    (name_rest (code c) && lean_name_from false s)
    || (nat_eq (code c) b'.' && lean_name_from true s)

-- `_LEAN_NAME.fullmatch`
unfoldable pub is_lean_name : String → Bool
unfolding lean_name_from
is_lean_name s = lean_name_from true s

abbrev is_blank : String → Bool
is_blank String.[] = true
is_blank (String.◌∷◌ c s) = false

module _ (is_space : ℕ → Bool) where
  unfoldable trim_start : String → String
  trim_start String.[] = ""
  trim_start (String.◌∷◌ c s) = if is_space (code c) then trim_start s else String.◌∷◌ c s

  unfoldable trim_end : String → String
  trim_end String.[] = ""
  trim_end (String.◌∷◌ c s) =
      let rest = trim_end s in if is_space (code c) && is_blank rest then "" else String.◌∷◌ c rest

  -- `text.strip()`
  unfoldable pub strip : String → String
  unfolding trim_start trim_end
  strip s = trim_end (trim_start s)
