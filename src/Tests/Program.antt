-- ===== src/Tests/Program.antt =====
-- Runs of policy.py, kernel.py, lineage.py and workflow/schedule.py.
use Prim.Native.Char.{code}
use lean_evolve.Prelude.{
  ℕ, String, ◌≡◌, ◌≢◌, refl, false, Option, none, some, List, [], ◌∷◌, ◌==◌, length, reverse, leb,
  nat_eq, any, All, inl, inr, ok, err, arith, if◌then◌else◌,
}
use Prim.Native.Nat.{◌-◌}
use lean_evolve.Policy.Scrub.{
  Text, backslash, in_block, in_text, in_code, skip_line, turn, loop, scrub, endless,
}
use lean_evolve.Policy.Turns.{Masks}
use lean_evolve.Policy.Masked.{scrub-Masks, line_ends, scrub-line_ends}
use lean_evolve.Schedule.Texts.{Unicode, drop_while, split_commas, strip, value_from, to_int}
use lean_evolve.Schedule.Parse.{
  Schedule, Epoch, solve, expand, parts_of, turns_of, chunk_epochs, parse_chunks, parse_schedule,
}
use lean_evolve.Schedule.Bounded.{IsBounded, Alternates, parse_schedule-IsBounded}
use lean_evolve.Config.Goals.{Goal, million}
use lean_evolve.Kernel.Accepts.{accepted_goals}
use lean_evolve.Kernel.Audited.{Justified, accepted_goals-Justified, accepted_goals-shared}
use lean_evolve.Lineage.Path.{Node, Walk, frontier_path}
use lean_evolve.Lineage.Ends.{Climbs, frontier_path-Climbs}

abbrev points : String → Text
points String.[] = []
points (String.◌∷◌ c s) = code c ∷ points s

abbrev lemma_source : Text
lemma_source = points "x -- sorry"

scrub-Masks_example :
    (scrub lemma_source ≢ err endless)
    × ((result : Text)
        → scrub lemma_source ≡ ok result
        → Masks (λ c. Unit) lemma_source result × (length result ≡ length lemma_source))
scrub-Masks_example = scrub-Masks lemma_source

scrubbed : scrub lemma_source ≡ ok (points "x         ")
unfolding in_block in_text in_code skip_line turn loop scrub
scrubbed = refl

plain : (cs : Text) → any (λ c. nat_eq c backslash) cs ≡ false → All (λ c. c ≢ backslash) cs
plain [] h = tt
plain (c ∷ cs) h = (λ q. absurd (ground (arith, h, q)), plain cs (ground (arith, h)))

scrub-line_ends_example : line_ends (points "x         ") ≡ line_ends lemma_source
scrub-line_ends_example =
    scrub-line_ends lemma_source (points "x         ") (plain lemma_source refl) scrubbed

-- A character literal of a quote hides what follows it up to the next quote, code as well.
hidden : scrub (points "'\"' sorry '\"'") ≡ ok (points "'           '")
unfolding in_block in_text in_code skip_line turn loop scrub
hidden = refl

-- An escaped newline in a string is scrubbed to two spaces.
joined : scrub (34 ∷ 92 ∷ 10 ∷ 34 ∷ []) ≡ ok (32 ∷ 32 ∷ 32 ∷ 32 ∷ [])
unfolding in_block in_text in_code skip_line turn loop scrub
joined = refl

abbrev ascii : Unicode
ascii = record {
  is_space = λ c. nat_eq c 32;
  is_digit = λ c. leb 48 c;
  decimal = λ c. if leb 48 c then some (c - 48) else none;
}

abbrev epoch_of : ℕ → List Epoch → List Epoch
epoch_of n rest =
    record { kind = solve; turns = n; focus = none }
    ∷ record { kind = expand; turns = 0; focus = none }
    ∷ rest

abbrev two_three : Schedule
two_three = record { style = "chunks"; raw = points "2, 3"; epochs = epoch_of 2 (epoch_of 3 []) }

parsed : parse_schedule ascii "chunks" (points "2, 3") ≡ ok two_three
unfolding parse_schedule parse_chunks chunk_epochs split_commas turns_of strip drop_while to_int
    value_from
parsed = refl

parse_schedule-IsBounded_example :
    IsBounded two_three.epochs
    × (two_three.style ≡ "chunks" → Alternates ascii (parts_of (points "2, 3")) two_three.epochs)
parse_schedule-IsBounded_example =
    parse_schedule-IsBounded ascii "chunks" (points "2, 3") two_three parsed

abbrev easy : Goal
easy = record {
  name = "easy";
  declaration = "main";
  target_type = "Nat";
  weight = million;
  depends_on = [];
  description = "";
}

abbrev hard : Goal
hard = record {
  name = "hard";
  declaration = "main";
  target_type = "False";
  weight = million;
  depends_on = [];
  description = "";
}

-- The run for `hard` fails, that for `easy` reports one axiom.
abbrev audit : Goal → Option (List String)
audit g = if g.name == "easy" then some ("propext" ∷ []) else none

accepted_goals-Justified_example :
    Justified audit
      (hard ∷ easy ∷ [])
      ("propext" ∷ [])
      (accepted_goals audit ("propext" ∷ []) (hard ∷ easy ∷ []))
accepted_goals-Justified_example =
    accepted_goals-Justified audit ("propext" ∷ []) (hard ∷ easy ∷ [])

accepted_goals-shared_example :
    accepted_goals audit ("propext" ∷ []) (hard ∷ easy ∷ []) ≡ "hard" ∷ "easy" ∷ []
accepted_goals-shared_example =
    accepted_goals-shared audit ("propext" ∷ []) ("propext" ∷ []) hard easy refl refl refl refl refl
      refl

-- Two programs that name each other as parents.
abbrev left : Node
left = record { program_id = "left"; parent_id = some "right" }

abbrev right : Node
right = record { program_id = "right"; parent_id = some "left" }

frontier_path-Climbs_example :
    (w : Walk) × (frontier_path (left ∷ right ∷ []) (some right)
      ≡ some (record w { path = reverse w.path }))
    × Climbs (left ∷ right ∷ []) [] (some right) w.path w.cycle
frontier_path-Climbs_example = frontier_path-Climbs (left ∷ right ∷ []) right (inr (inl refl))
