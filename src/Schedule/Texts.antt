-- ===== src/Schedule/Texts.antt =====
-- What workflow/schedule.py uses of Python's texts. A text is the list of its code points.
use Prim.Native.Nat.{◌*◌}
use lean_evolve.Prelude.{
  ℕ, ◌+◌, Bool, true, false, ◌&&◌, Option, none, some, List, [], ◌∷◌, length, reverse, maybe, leb,
  nat_eq, if◌then◌else◌,
}

abbrev pub Text : Type 0
Text = List ℕ

-- The classes of code points, which the Unicode tables of Python give: `str.isspace` (and `\s`),
-- `str.isdigit`, and the value of a decimal digit (`\d`, `int`).
pub record Unicode : Type 0 where
  pub is_space : ℕ → Bool
  pub is_digit : ℕ → Bool
  pub decimal : ℕ → Option ℕ

abbrev pub nonempty : Text → Bool
nonempty [] = false
nonempty (c ∷ cs) = true

abbrev pub text_eq : Text → Text → Bool
text_eq [] [] = true
text_eq (x ∷ xs) (y ∷ ys) = nat_eq x y && text_eq xs ys
text_eq xs ys = false

-- `cs` without the code points of the class at its start
unfoldable pub drop_while : (ℕ → Bool) → Text → Text
drop_while test [] = []
drop_while test (c ∷ cs) = if test c then drop_while test cs else c ∷ cs

unfoldable pub take_while : (ℕ → Bool) → Text → Text
take_while test [] = []
take_while test (c ∷ cs) = if test c then c ∷ take_while test cs else []

abbrev pub all_of : (ℕ → Bool) → Text → Bool
all_of test [] = true
all_of test (c ∷ cs) = test c && all_of test cs

-- The text behind a prefix.
abbrev pub behind : Text → Text → Option Text
behind [] cs = some cs
behind (p ∷ ps) [] = none
behind (p ∷ ps) (c ∷ cs) = if nat_eq p c then behind ps cs else none

abbrev pub comma : ℕ
comma = b','

-- `value.split(",")`: the part before the first comma and the others
unfoldable pub split_commas : Text → Text × List Text
split_commas [] = ([], [])
split_commas (c ∷ cs) =
    let (part, parts) = split_commas cs in
    if nat_eq c comma then ([], part ∷ parts) else (c ∷ part, parts)

module _ (u : Unicode) where
  -- `text.strip()`
  unfoldable pub strip : Text → Text
  unfolding drop_while
  strip cs = reverse (drop_while u.is_space (reverse (drop_while u.is_space cs)))

  -- `text.isdigit()`
  abbrev pub is_digits : Text → Bool
  is_digits cs = nonempty cs && all_of u.is_digit cs

  -- The limit of `int` on the digits of a text.
  abbrev pub max_digits : ℕ
  max_digits = 4300

  unfoldable pub value_from : ℕ → Text → Option ℕ
  value_from n [] = some n
  value_from n (c ∷ cs) = maybe none (λ d. value_from (n * 10 + d) cs) (u.decimal c)

  -- `int(text)` of digits; `none` where it raises ValueError
  unfoldable pub to_int : Text → Option ℕ
  unfolding value_from
  to_int cs = if leb (length cs) max_digits then value_from 0 cs else none
