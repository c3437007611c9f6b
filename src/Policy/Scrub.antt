-- ===== src/Policy/Scrub.antt =====
-- policy.py `scrub_comments_and_strings`. A text is the list of its code points.
use lean_evolve.Prelude.{
  ℕ, zero, suc, Bool, true, false, ◌&&◌, Option, none, some, List, [], ◌∷◌, ◌++◌, length, maybe,
  nat_eq, ltb, Except, ok, err, if◌then◌else◌,
}

abbrev pub Text : Type 0
Text = List ℕ

abbrev pub newline : ℕ
newline = 10

abbrev pub space : ℕ
space = 32

abbrev pub backslash : ℕ
backslash = 92

-- The variables of the loop besides `index` and `result`.
pub record Mode : Type 0 where
  pub block_depth : ℕ
  pub in_string : Bool

-- One iteration: what it appends to `result`, the rest of the source behind the new index, and the
-- variables.
pub record Turn : Type 0 where
  pub emitted : Text
  pub rest : Text
  pub mode : Mode

abbrev pub first_is : ℕ → Text → Bool
first_is c [] = false
first_is c (x ∷ xs) = nat_eq x c

abbrev pub behind_first : Text → Text
behind_first [] = []
behind_first (x ∷ xs) = xs

abbrev pub nonempty : Text → Bool
nonempty [] = false
nonempty (x ∷ xs) = true

-- `"\n" if character == "\n" else " "`
abbrev pub blank : ℕ → ℕ
blank c = if nat_eq c newline then newline else space

-- From `--` to the end of the line: the spaces and the newline, and what is behind it.
unfoldable pub skip_line : Text → Text × Text
skip_line [] = ([], [])
skip_line (c ∷ cs) =
    let after = skip_line cs in
    if nat_eq c newline then (newline ∷ [], cs) else (space ∷ after.0, after.1)

-- The three parts of the loop body, at a character and what follows it.
unfoldable pub in_block : ℕ → ℕ → Text → Turn
in_block depth c rest =
    if nat_eq c b'/' && first_is b'-' rest
    then record {
      emitted = space ∷ space ∷ [];
      rest = behind_first rest;
      mode = record { block_depth = suc (suc depth); in_string = false };
    }
    else if nat_eq c b'-' && first_is b'/' rest
    then record {
      emitted = space ∷ space ∷ [];
      rest = behind_first rest;
      mode = record { block_depth = depth; in_string = false };
    }
    else record {
      emitted = blank c ∷ [];
      rest = rest;
      mode = record { block_depth = suc depth; in_string = false };
    }

unfoldable pub in_text : ℕ → Text → Turn
in_text c rest =
    if nat_eq c backslash && nonempty rest
    then record {
      emitted = space ∷ space ∷ [];
      rest = behind_first rest;
      mode = record { block_depth = 0; in_string = true };
    }
    else if nat_eq c b'"'
    then record {
      emitted = space ∷ [];
      rest = rest;
      mode = record { block_depth = 0; in_string = false };
    }
    else record {
      emitted = blank c ∷ [];
      rest = rest;
      mode = record { block_depth = 0; in_string = true };
    }

unfoldable pub in_code : ℕ → Text → Turn
unfolding skip_line
in_code c rest =
    if nat_eq c b'-' && first_is b'-' rest
    then record {
      emitted = (skip_line (c ∷ rest)).0;
      rest = (skip_line (c ∷ rest)).1;
      mode = record { block_depth = 0; in_string = false };
    }
    else if nat_eq c b'/' && first_is b'-' rest
    then record {
      emitted = space ∷ space ∷ [];
      rest = behind_first rest;
      mode = record { block_depth = 1; in_string = false };
    }
    else if nat_eq c b'"'
    then record {
      emitted = space ∷ [];
      rest = rest;
      mode = record { block_depth = 0; in_string = true };
    }
    else record {
      emitted = c ∷ [];
      rest = rest;
      mode = record { block_depth = 0; in_string = false };
    }

-- The loop body. While a block comment is open, `in_string` is false.
unfoldable pub turn : Mode → ℕ → Text → Turn
unfolding in_block in_text in_code
turn m c rest = elim m.block_depth [
  | suc depth ↦ in_block depth c rest
  | zero ↦ if m.in_string then in_text c rest else in_code c rest
]

-- `while index < len(source)`, on fuel: `none` when it runs out.
unfoldable pub loop : ℕ → Mode → Text → Option (Text × Mode)
unfolding turn
loop fuel m [] = some ([], m)
loop zero m (c ∷ cs) = none
loop (suc fuel) m (c ∷ cs) =
    let t = turn m c cs in maybe none (λ r. some (t.emitted ++ r.0, r.1)) (loop fuel t.mode t.rest)

-- The ValueErrors; the last is that of the model, for a loop that does not end.
pub data ScrubError : Type 0 where
  unterminated_comment : ScrubError
  unterminated_string : ScrubError
  endless : ScrubError

abbrev pub at_start : Mode
at_start = record { block_depth = 0; in_string = false }

abbrev pub finished : Text × Mode → Except ScrubError Text
finished (result, m) =
    if ltb 0 m.block_depth
    then err unterminated_comment
    else if m.in_string
    then err unterminated_string
    else ok result

-- `scrub_comments_and_strings`
unfoldable pub scrub : Text → Except ScrubError Text
unfolding loop
scrub source = maybe (err endless) finished (loop (length source) at_start source)
