-- ===== src/Policy/Masked.antt =====
-- The loop of policy.py `scrub_comments_and_strings`, and what it returns.
use lean_evolve.Prelude.{
  ℕ, zero, suc, ◌≤◌, ◌≡◌, ◌≢◌, refl, sym, ap, subst, ◌∙◌, inl, inr, Bool, true, false, some, List,
  [], ◌∷◌, ◌++◌, length, map, All, nat_eq, ltb, ok, err, if◌then◌else◌, arith, ok-injective,
}
use lean_evolve.Policy.Scrub.{
  Text, Mode, newline, backslash, turn, loop, endless, unterminated_comment, unterminated_string,
  finished, at_start, scrub,
}
use lean_evolve.Policy.Turns.{Masks, Escapes, same_differ, Masks-++, turn-IsTurn}

length-behind : (xs ys : Text) → length ys ≤ length (xs ++ ys)
length-behind [] ys = omega arith
length-behind (x ∷ xs) ys = omega (arith, length-behind xs ys)

finished-ends : (result : Text) (m : Mode) → finished (result, m) ≢ err endless
finished-ends result m h = by_tests (ltb 0 m.block_depth) m.in_string h
  where
    by_tests :
        (open_ in_string : Bool)
        → (if open_
            then err unterminated_comment
            else if in_string
            then err unterminated_string
            else ok result)
          ≢ err endless
    by_tests true b h = absurd (ground (arith, h))
    by_tests false true h = absurd (ground (arith, h))
    by_tests false false h = absurd (ground (arith, h))

finished-eq-ok :
    (result : Text) (m : Mode) (other : Text) → finished (result, m) ≡ ok other → other ≡ result
finished-eq-ok result m other h = by_tests (ltb 0 m.block_depth) m.in_string h
  where
    by_tests :
        (open_ in_string : Bool)
        → (if open_
            then err unterminated_comment
            else if in_string
            then err unterminated_string
            else ok result)
          ≡ ok other
        → other ≡ result
    by_tests true b h = absurd (ground (arith, h))
    by_tests false true h = absurd (ground (arith, h))
    by_tests false false h = sym (ok-injective h)

module _ (Lost : ℕ → Type 0) (visible : (c : ℕ) → c ≢ newline → Lost c) where
  All-behind : (xs ys : Text) → All (Escapes Lost) (xs ++ ys) → All (Escapes Lost) ys
  All-behind [] ys h = h
  All-behind (x ∷ xs) ys (_, h) = All-behind xs ys h

  loop-Masks :
      (fuel : ℕ) (m : Mode) (cs : Text)
      → length cs ≤ fuel
      → All (Escapes Lost) cs
      → (r : Text × Mode) × (loop fuel m cs ≡ some r) × Masks Lost cs r.0
  unfolding loop
  loop-Masks fuel m [] le e = (([], m), refl, tt)
  loop-Masks zero m (c ∷ cs) le e = absurd (omega (arith, le))
  loop-Masks (suc fuel) m (c ∷ cs) le (ec, e) =
      let t = turn m c cs in
      let i = turn-IsTurn Lost visible m c cs ec in
      let shorter = length-behind i.eaten t.rest in
      let size : length cs ≡ length (i.eaten ++ t.rest) = ap length i.split in
      let (r, ran, masks) =
        loop-Masks fuel t.mode t.rest (omega (arith, le, shorter, size))
          (All-behind i.eaten t.rest (subst (All (Escapes Lost)) i.split e)) in
      (
        (t.emitted ++ r.0, r.1),
        rw ran refl,
        subst (λ xs. Masks Lost (c ∷ xs) (t.emitted ++ r.0)) (sym i.split)
            (Masks-++ Lost visible (c ∷ i.eaten) t.emitted t.rest r.0 i.masks masks),
      )

  scrub-Masks_allowed :
      (source : Text)
      → All (Escapes Lost) source
      → (scrub source ≢ err endless)
        × ((result : Text) → scrub source ≡ ok result → Masks Lost source result)
  unfolding scrub
  scrub-Masks_allowed source e =
      let (r, ran, masks) = loop-Masks (length source) at_start source (omega arith) e in
      (
        λ h. finished-ends r.0 r.1 (rw ran at h),
        λ result h.
            subst (Masks Lost source) (sym (finished-eq-ok r.0 r.1 result (rw ran at h))) masks,
      )

-- Nothing is asked of what is lost.
abbrev Any : ℕ → Type 0
Any c = Unit

anything : (source : Text) → All (Escapes Any) source
anything [] = tt
anything (c ∷ cs) = (λ h x. tt, anything cs)

-- The end of every scrub is reached within as many iterations as the source has code points, and a
-- result is the source with spaces over some of it: it has the same length, and a code point of it
-- that is no space stands at the same place in the source.
pub scrub-Masks :
    (source : Text)
    → (scrub source ≢ err endless)
      × ((result : Text)
          → scrub source ≡ ok result
          → Masks (λ c. Unit) source result × (length result ≡ length source))
scrub-Masks source =
    let (ends, masks) = scrub-Masks_allowed Any (λ c h. tt) source (anything source) in
    (ends, λ result h. (masks result h, Masks-length Any source result (masks result h)))
  where
    Masks-length : (Lost : ℕ → Type 0) (xs ys : Text) → Masks Lost xs ys → length ys ≡ length xs
    Masks-length Lost [] [] h = refl
    Masks-length Lost [] (y ∷ ys) h = absurd h
    Masks-length Lost (x ∷ xs) [] h = absurd h
    Masks-length Lost (x ∷ xs) (y ∷ ys) (_, h) = ap suc (Masks-length Lost xs ys h)

-- Where the lines of a text end.
abbrev pub line_ends : Text → List Bool
line_ends cs = map (λ c. nat_eq c newline) cs

-- Without a backslash in the source the lines stay: the newlines of a result stand where those of the
-- source stand.
pub scrub-line_ends :
    (source result : Text)
    → All (λ c. c ≢ backslash) source
    → scrub source ≡ ok result
    → line_ends result ≡ line_ends source
scrub-line_ends source result h ran =
    same_lines source result
      ((scrub-Masks_allowed OffLine (λ c k. k) source (unescaped source h)).1 result ran)
  where
    OffLine : ℕ → Type 0
    OffLine c = c ≢ newline

    unescaped : (cs : Text) → All (λ c. c ≢ backslash) cs → All (Escapes OffLine) cs
    unescaped [] k = tt
    unescaped (c ∷ cs) (p, k) = (λ q. absurd (p q), unescaped cs k)

    same_lines : (xs ys : Text) → Masks OffLine xs ys → line_ends ys ≡ line_ends xs
    same_lines [] [] k = refl
    same_lines [] (y ∷ ys) k = absurd k
    same_lines (x ∷ xs) [] k = absurd k
    same_lines (x ∷ xs) (y ∷ ys) (inl e, k) =
        ap (λ c. nat_eq c newline ∷ line_ends ys) e
        ∙ ap (λ ls. nat_eq x newline ∷ ls) (same_lines xs ys k)
    same_lines (x ∷ xs) (y ∷ ys) (inr (e, off), k) =
        ap (λ c. nat_eq c newline ∷ line_ends ys) e
        ∙ ap (λ b. b ∷ line_ends ys) (sym (same_differ x newline off))
        ∙ ap (λ ls. nat_eq x newline ∷ ls) (same_lines xs ys k)
