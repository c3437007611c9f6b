-- ===== src/Policy/Turns.antt =====
-- What one iteration of the loop of policy.py `scrub_comments_and_strings` does to the text.
use lean_evolve.Prelude.{
  ℕ, zero, suc, ◌≡◌, ◌≢◌, ◌⊎◌, refl, sym, ap, ◌∙◌, inl, inr, Bool, true, false, ◌&&◌, [], ◌∷◌, ◌++◌,
  nat_eq, if◌then◌else◌, Bool-cases, arith, nat_eq_sound, nat_eq_refl,
}
use lean_evolve.Policy.Scrub.{
  Text, Mode, Turn, newline, space, backslash, blank, first_is, behind_first, nonempty, skip_line,
  in_block, in_text, in_code, turn,
}

-- The second text is the first with spaces in the place of some code points, which `Lost` allows.
abbrev pub Masks : (ℕ → Type 0) → Text → Text → Type 0
Masks Lost [] [] = Unit
Masks Lost (c ∷ cs) (d ∷ ds) = ((d ≡ c) ⊎ ((d ≡ space) × Lost c)) × Masks Lost cs ds
Masks Lost cs ds = ⊥

-- What a pair of lines of the loop may rely on: behind a backslash anything may be lost.
abbrev pub Escapes : (ℕ → Type 0) → ℕ → Type 0
Escapes Lost c = c ≡ backslash → (x : ℕ) → Lost x

differ : (a b : ℕ) → nat_eq a b ≡ false → a ≢ b
differ a b h q = ground arith

pub same_differ : (a b : ℕ) → a ≢ b → nat_eq a b ≡ false
same_differ a b h = elim (Bool-cases (nat_eq a b)) [
  | inl same ↦ absurd (h (nat_eq_sound a b same))
  | inr other ↦ other
]

module _ (Lost : ℕ → Type 0) (visible : (c : ℕ) → c ≢ newline → Lost c) where
  pub Masks-++ :
      (xs ys cs ds : Text) → Masks Lost xs ys → Masks Lost cs ds → Masks Lost (xs ++ cs) (ys ++ ds)
  Masks-++ [] [] cs ds h k = k
  Masks-++ [] (y ∷ ys) cs ds h k = absurd h
  Masks-++ (x ∷ xs) [] cs ds h k = absurd h
  Masks-++ (x ∷ xs) (y ∷ ys) cs ds (p, h) k = (p, Masks-++ xs ys cs ds h k)

  -- What an iteration consumes, and that its output masks it.
  pub record IsTurn (c : ℕ) (rest : Text) (t : Turn) : Type 0 where
    pub eaten : Text
    pub split : rest ≡ eaten ++ t.rest
    pub masks : Masks Lost (c ∷ eaten) t.emitted

  blanked : (c : ℕ) → (blank c ≡ c) ⊎ ((blank c ≡ space) × Lost c)
  blanked c = elim (Bool-cases (nat_eq c newline)) [
    | inl line ↦ inl (rw line (sym (nat_eq_sound c newline line)))
    | inr other ↦ inr (rw other refl, visible c (λ q. differ c newline other q))
  ]

  -- A pair is replaced by two spaces.
  paired :
      (c : ℕ) (rest : Text) (m : Mode)
      → Lost c
      → nonempty rest ≡ true
      → ((d : ℕ) → first_is d rest ≡ true → Lost d)
      → IsTurn c rest (record { emitted = space ∷ space ∷ []; rest = behind_first rest; mode = m })
  paired c [] m l h k = absurd (ground arith)
  paired c (d ∷ rest) m l h k = record {
    eaten = d ∷ [];
    split = refl;
    masks = (inr (refl, l), (inr (refl, k d (nat_eq_refl d)), tt));
  }

  single :
      (c d : ℕ) (rest : Text) (m : Mode)
      → (d ≡ c) ⊎ ((d ≡ space) × Lost c)
      → IsTurn c rest (record { emitted = d ∷ []; rest = rest; mode = m })
  single c d rest m p = record { eaten = []; split = refl; masks = (p, tt) }

  first_nonempty : (c : ℕ) (rest : Text) → first_is c rest ≡ true → nonempty rest ≡ true
  first_nonempty c [] h = absurd (ground arith)
  first_nonempty c (d ∷ rest) h = refl

  first_same : (c d : ℕ) (rest : Text) → first_is c rest ≡ true → first_is d rest ≡ true → d ≡ c
  first_same c d [] h k = absurd (ground arith)
  first_same c d (x ∷ rest) h k = ground arith

  both : (a b : Bool) → (a && b) ≡ true → (a ≡ true) × (b ≡ true)
  both true b h = (refl, h)
  both false b h = absurd (ground arith)

  -- Two visible code points that make a pair.
  visible_pair :
      (x y c : ℕ) (rest : Text) (m : Mode)
      → x ≢ newline
      → y ≢ newline
      → (nat_eq c x && first_is y rest) ≡ true
      → IsTurn c rest (record { emitted = space ∷ space ∷ []; rest = behind_first rest; mode = m })
  visible_pair x y c rest m nx ny h =
      let (p, k) = both (nat_eq c x) (first_is y rest) h in
      paired c rest m (visible c (λ q. nx (sym (nat_eq_sound c x p) ∙ q))) (first_nonempty y rest k)
        (λ d f. visible d (λ q. ny (sym (first_same y d rest k f) ∙ q)))

  skip_line-Masks :
      (cs : Text)
      → (eaten : Text) × (cs ≡ eaten ++ (skip_line cs).1) × Masks Lost eaten (skip_line cs).0
  unfolding skip_line
  skip_line-Masks [] = ([], refl, tt)
  skip_line-Masks (c ∷ cs) = elim (Bool-cases (nat_eq c newline)) [
    | inl line ↦ rw line (c ∷ [], refl, (inl (sym (nat_eq_sound c newline line)), tt))
    | inr other ↦
        let (eaten, split, masks) = skip_line-Masks cs in
        rw other (
          c ∷ eaten,
          ap (λ xs. c ∷ xs) split,
          (inr (refl, visible c (λ q. differ c newline other q)), masks),
        )
  ]

  in_block-IsTurn : (depth c : ℕ) (rest : Text) → IsTurn c rest (in_block depth c rest)
  unfolding in_block
  in_block-IsTurn depth c rest = elim (Bool-cases (nat_eq c b'/' && first_is b'-' rest)) [
    | inl opens ↦ rw opens (
        visible_pair b'/' b'-' c rest _ (λ q. absurd (ground arith)) (λ q. absurd (ground arith))
          opens)
    | inr no_ ↦ elim (Bool-cases (nat_eq c b'-' && first_is b'/' rest)) [
      | inl closes ↦
          rw (no_, closes)
            (visible_pair b'-' b'/' c rest _ (λ q. absurd (ground arith))
              (λ q. absurd (ground arith)) closes)
      | inr other ↦ rw (no_, other) (single c (blank c) rest _ (blanked c))
    ]
  ]

  in_text-IsTurn : (c : ℕ) (rest : Text) → Escapes Lost c → IsTurn c rest (in_text c rest)
  unfolding in_text
  in_text-IsTurn c rest e = elim (Bool-cases (nat_eq c backslash && nonempty rest)) [
    | inl escape ↦
        let (p, k) = both (nat_eq c backslash) (nonempty rest) escape in
        let any_lost = e (nat_eq_sound c backslash p) in
        rw escape (paired c rest _ (any_lost c) k (λ d _. any_lost d))
    | inr no_ ↦ elim (Bool-cases (nat_eq c b'"')) [
      | inl closes ↦
          rw (no_, closes)
            (single c space rest _
              (inr (refl, visible c (λ q. absurd (omega (arith, nat_eq_sound c b'"' closes, q))))))
      | inr other ↦ rw (no_, other) (single c (blank c) rest _ (blanked c))
    ]
  ]

  in_code-IsTurn : (c : ℕ) (rest : Text) → IsTurn c rest (in_code c rest)
  unfolding in_code
  in_code-IsTurn c rest = elim (Bool-cases (nat_eq c b'-' && first_is b'-' rest)) [
    | inl line ↦
        let (dash, _) = both (nat_eq c b'-') (first_is b'-' rest) line in
        let on_line : c ≢ newline = λ q. absurd (omega (arith, nat_eq_sound c b'-' dash, q)) in
        let (eaten, split, masks) = skip_line-Masks rest in
        rw (line, same_differ c newline on_line)
          (record { eaten = eaten; split = split; masks = (inr (refl, visible c on_line), masks) })
    | inr no_ ↦ elim (Bool-cases (nat_eq c b'/' && first_is b'-' rest)) [
      | inl opens ↦
          rw (no_, opens)
            (visible_pair b'/' b'-' c rest _ (λ q. absurd (ground arith))
              (λ q. absurd (ground arith)) opens)
      | inr no2 ↦ elim (Bool-cases (nat_eq c b'"')) [
        | inl quote ↦
            rw (no_, no2, quote)
              (single c space rest _
                (inr (refl, visible c (λ q. absurd (omega (arith, nat_eq_sound c b'"' quote, q))))))
        | inr other ↦ rw (no_, no2, other) (single c c rest _ (inl refl))
      ]
    ]
  ]

  pub turn-IsTurn :
      (m : Mode) (c : ℕ) (rest : Text) → Escapes Lost c → IsTurn c rest (turn m c rest)
  unfolding turn
  turn-IsTurn m c rest e = by_mode m.block_depth m.in_string
    where
      by_mode :
          (depth : ℕ) (in_string : Bool)
          → IsTurn c rest (elim depth [
            | suc d ↦ in_block d c rest
            | zero ↦ if in_string then in_text c rest else in_code c rest
          ])
      by_mode (suc d) in_string = in_block-IsTurn d c rest
      by_mode zero true = in_text-IsTurn c rest e
      by_mode zero false = in_code-IsTurn c rest
