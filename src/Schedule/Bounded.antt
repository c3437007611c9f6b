-- ===== src/Schedule/Bounded.antt =====
-- The bounds and the order of a schedule that workflow/schedule.py `parse_schedule` returns.
use Prim.Native.Nat.{◌*◌}
use lean_evolve.Prelude.{
  ℕ, ◌+◌, ◌≤◌, String, ◌≡◌, refl, sym, ap, subst, inl, inr, true, false, not, ◌&&◌, none, some,
  List, [], ◌∷◌, length, maybe, leb, ltb, ◌==◌, ok, raise_if, arith, Bool-cases, >>=-eq-ok,
  raise_if-eq-ok, raise_if-not-eq-ok, ok-injective,
}
use lean_evolve.Schedule.Texts.{Text, Unicode, nonempty, strip, is_digits, to_int}
use lean_evolve.Schedule.Parse.{
  solve, expand, spotlight, Epoch, Schedule, not_positive, out_of_range, value_error, is_empty,
  not_a_spotlight, too_long_spotlight, too_many_chunks, max_chunks, max_turns_per_chunk,
  max_spotlight_turns, solve_turns, expansion_count, or_raise, turns_of, match_spotlight,
  parse_steps, parse_spotlight, chunk_epochs, parts_of, parse_chunks, parse_schedule,
}

-- What every schedule keeps: from 1 to 32 * 99 solve turns, and at most 32 expansions.
pub record IsBounded (es : List Epoch) : Type 0 where
  pub some_turns : 1 ≤ solve_turns es
  pub few_turns : solve_turns es ≤ max_chunks * max_turns_per_chunk
  pub few_expansions : expansion_count es ≤ max_chunks

one_epoch :
    (e : Epoch) (n : ℕ)
    → solve_turns (e ∷ []) ≡ n + 0
    → expansion_count (e ∷ []) ≡ 0
    → (1 ≤ n) × (n ≤ 99)
    → IsBounded (e ∷ [])
one_epoch e n p q (low, high) = record {
  some_turns = omega (arith, p, low);
  few_turns = omega (arith, p, high);
  few_expansions = omega (arith, q);
}

module _ (u : Unicode) where
  turns_of-bounds :
      (text : Text) (n : ℕ) → turns_of u text ≡ ok n → (1 ≤ n) × (n ≤ max_turns_per_chunk)
  unfolding turns_of
  turns_of-bounds text n h =
      let (_, digits, h1) =
        >>=-eq-ok (raise_if (not (is_digits u (strip u text))) not_positive) _ h in
      let (m, read, h2) = >>=-eq-ok (or_raise value_error (to_int u (strip u text))) _ h1 in
      let (_, range, h3) =
        >>=-eq-ok (raise_if (not (leb 1 m && leb m max_turns_per_chunk)) out_of_range) _ h2 in
      let inside = raise_if-not-eq-ok (leb 1 m && leb m max_turns_per_chunk) out_of_range range in
      bounded m n inside (ok-injective h3)
    where
      bounded : (m n : ℕ) → (leb 1 m && leb m 99) ≡ true → m ≡ n → (1 ≤ n) × (n ≤ 99)
      bounded m n h e = (ground (arith, h, e), ground (arith, h, e))

  -- A solve epoch and the expansion behind it, for each part in order.
  pub data Alternates : List Text → List Epoch → Type 0 where
    done : {parts : List Text} {es : List Epoch} → parts ≡ [] → es ≡ [] → Alternates parts es
    chunk :
        {parts : List Text} {es : List Epoch} (part : Text) (rest : List Text) (turns : ℕ)
        (others : List Epoch)
        → parts ≡ part ∷ rest
        → turns_of u part ≡ ok turns
        → es
          ≡ record { kind = solve; turns = turns; focus = none }
            ∷ record { kind = expand; turns = 0; focus = none }
            ∷ others
        → Alternates rest others
        → Alternates parts es

  chunk_epochs-Alternates :
      (parts : List Text) (es : List Epoch) → chunk_epochs u parts ≡ ok es → Alternates parts es
  unfolding chunk_epochs
  chunk_epochs-Alternates [] es h = done refl (sym (ok-injective h))
  chunk_epochs-Alternates (part ∷ parts) es h =
      let (n, read, h1) = >>=-eq-ok (turns_of u part) _ h in
      let (others, more, h2) = >>=-eq-ok (chunk_epochs u parts) _ h1 in
      chunk part parts n others refl read (sym (ok-injective h2))
        (chunk_epochs-Alternates parts others more)

  -- What alternates is as long as twice the parts, expands once for each and solves 1 to 99 turns for
  -- each.
  Alternates-bounds :
      (parts : List Text) (es : List Epoch)
      → Alternates parts es
      → (expansion_count es ≡ length parts)
        × (length parts ≤ solve_turns es)
        × (solve_turns es ≤ 99 * length parts)
  unfolding expansion_count solve_turns
  Alternates-bounds parts es (done p q) = rw (p, q) (refl, omega arith, omega arith)
  Alternates-bounds parts es (chunk part rest turns others p read q more) =
      let (a, b, c) = Alternates-bounds rest others more in
      let (low, high) = turns_of-bounds part turns read in
      rw (p, q) (omega (arith, a), omega (arith, b, low), omega (arith, c, high))

  parse_steps-IsBounded :
      (value : Text) (s : Schedule) → parse_steps u value ≡ ok s → IsBounded s.epochs
  unfolding parse_steps solve_turns expansion_count
  parse_steps-IsBounded value s h =
      let (n, read, h1) = >>=-eq-ok (turns_of u value) _ h in
      subst (λ (x : Schedule). IsBounded x.epochs) (ok-injective h1)
        (one_epoch (record { kind = solve; turns = n; focus = none }) n refl refl
          (turns_of-bounds value n read))

  parse_spotlight-IsBounded :
      (value : Text) (s : Schedule) → parse_spotlight u value ≡ ok s → IsBounded s.epochs
  unfolding parse_spotlight solve_turns expansion_count
  parse_spotlight-IsBounded value s h =
      let (_, _, h1) = >>=-eq-ok (raise_if (not (nonempty (strip u value))) is_empty) _ h in
      let (found, _, h2) =
        >>=-eq-ok (or_raise not_a_spotlight (match_spotlight u (strip u value))) _ h1 in
      let (n, read, h3) = >>=-eq-ok (turns_of u (maybe (b'1' ∷ []) (λ t. t) found.1)) _ h2 in
      let (_, _, h4) = >>=-eq-ok (raise_if (ltb max_spotlight_turns n) too_long_spotlight) _ h3 in
      subst (λ (x : Schedule). IsBounded x.epochs) (ok-injective h4)
        (one_epoch (record { kind = spotlight; turns = n; focus = some found.0 }) n refl refl
          (turns_of-bounds _ n read))

  -- A schedule of chunks runs its parts in their order, each solved for its turns and followed by an
  -- expansion.
  parse_chunks-Alternates :
      (value : Text) (s : Schedule)
      → parse_chunks u value ≡ ok s
      → Alternates (parts_of value) s.epochs × (length (parts_of value) ≤ max_chunks)
  unfolding parse_chunks
  parse_chunks-Alternates value s h =
      let (_, _, h1) = >>=-eq-ok (raise_if (not (nonempty (strip u value))) is_empty) _ h in
      let (_, few, h2) =
        >>=-eq-ok (raise_if (ltb max_chunks (length (parts_of value))) too_many_chunks) _ h1 in
      let (es, read, h3) = >>=-eq-ok (chunk_epochs u (parts_of value)) _ h2 in
      (
        subst (λ (x : Schedule). Alternates (parts_of value) x.epochs) (ok-injective h3)
            (chunk_epochs-Alternates (parts_of value) es read),
        at_most (length (parts_of value)) (raise_if-eq-ok _ too_many_chunks few),
      )
    where
      at_most : (n : ℕ) → ltb 32 n ≡ false → n ≤ 32
      at_most n k = ground arith

  parse_chunks-IsBounded :
      (value : Text) (s : Schedule) → parse_chunks u value ≡ ok s → IsBounded s.epochs
  parse_chunks-IsBounded value s h =
      let (alternates, few) = parse_chunks-Alternates value s h in
      let (a, b, c) = Alternates-bounds (parts_of value) s.epochs alternates in
      record {
        some_turns = omega (arith, b);
        few_turns = omega (arith, c, few);
        few_expansions = omega (arith, a, few);
      }

  -- Whatever the style and the argument, a schedule that `parse_schedule` returns has at least one
  -- solve turn, at most 32 * 99 of them, and at most 32 expansions; and one of chunks runs the parts of
  -- the argument in their order, each solved for its 1 to 99 turns and followed by one expansion.
  pub parse_schedule-IsBounded :
      (style : String) (value : Text) (s : Schedule)
      → parse_schedule u style value ≡ ok s
      → IsBounded s.epochs × (style ≡ "chunks" → Alternates (parts_of value) s.epochs)
  unfolding parse_schedule
  parse_schedule-IsBounded style value s h = elim (Bool-cases (style == "steps")) [
    | inl steps ↦ (
      parse_steps-IsBounded value s (rw steps at h),
      λ q. absurd (other_style "chunks" "steps" q steps refl),
    )
    | inr no_ ↦ elim (Bool-cases (style == "spotlight")) [
      | inl focused ↦ (
        parse_spotlight-IsBounded value s (rw (no_, focused) at h),
        λ q. absurd (other_style "chunks" "spotlight" q focused refl),
      )
      | inr no2 ↦ elim (Bool-cases (style == "chunks")) [
        | inl chunks ↦
            let k = rw (no_, no2, chunks) at h in
            (parse_chunks-IsBounded value s k, λ _. (parse_chunks-Alternates value s k).0)
        | inr unknown ↦ absurd (ground (arith, rw (no_, no2, unknown) at h))
      ]
    ]
  ]
    where
      other_style : (a b : String) → style ≡ a → (style == b) ≡ true → (a == b) ≡ false → ⊥
      other_style a b p q d = cc (ap (λ x. x == b) p, q, d)
