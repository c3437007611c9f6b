-- ===== src/Vocabulary/Levels.antt =====
-- The verification ladder: what `dominant_verification_level` of ledger/vocabulary.py returns.
use lean_evolve.Prelude.{
  ℕ, ◌≤◌, ◌<◌, String, ◌≡◌, ◌≢◌, refl, ◌⊎◌, inl, inr, none, some, List, [], ◌∷◌, All, Among,
  Option-cases, ok, arith,
}
use lean_evolve.Vocabulary.Validate.{
  order_of, rank, better, dominant_from, dominant_verification_level,
}

-- `r` is the best of `best` and the levels: none is above it, and it is `best` or a level of the
-- list that is strictly above `best`.
pub record IsDominant (best : String) (levels : List String) (r : String) : Type 0 where
  pub above_best : rank best ≤ rank r
  pub above_all : All (λ l. rank l ≤ rank r) levels
  pub chosen : (r ≡ best) ⊎ (Among r levels × (rank best < rank r))

rank_known : (level : String) (n : ℕ) → order_of level ≡ some n → rank level ≡ n
unfolding rank
rank_known level n e = rw e

better_cases :
    (best level : String) (n : ℕ)
    → rank level ≡ n
    → ((better best level n ≡ level) × (rank best < rank level))
      ⊎ ((better best level n ≡ best) × (rank level ≤ rank best))
unfolding better
better_cases best level n e = ground arith

IsDominant-cons :
    (best level b : String) {levels : List String} {r : String}
    → ((b ≡ level) × (rank best < rank level)) ⊎ ((b ≡ best) × (rank level ≤ rank best))
    → IsDominant b levels r
    → IsDominant best (level ∷ levels) r
IsDominant-cons best level b (inl (e, le)) h =
    let k : IsDominant level _ _ = rw e at h in
    record {
      above_best = omega (arith, k.above_best);
      above_all = (k.above_best, k.above_all);
      chosen = elim k.chosen [
        | inl p ↦ inr (inl p, rw p le)
        | inr (q, up) ↦ inr (inr q, omega arith)
      ];
    }
IsDominant-cons best level b (inr (e, le)) h =
    let k : IsDominant best _ _ = rw e at h in
    record {
      above_best = k.above_best;
      above_all = (omega (arith, k.above_best), k.above_all);
      chosen = elim k.chosen [ inl p ↦ inl p | inr (q, up) ↦ inr (inr q, up) ];
    }

-- The loop returns the best of its start and the levels.
pub dominant_from-IsDominant :
    (best : String) (levels : List String) {r : String}
    → dominant_from best levels ≡ ok r
    → IsDominant best levels r
unfolding dominant_from
dominant_from-IsDominant best [] {r} h =
    let e : r ≡ best = cc in
    record { above_best = rw e (omega arith); above_all = tt; chosen = inl e }
dominant_from-IsDominant best (level ∷ levels) h = elim (Option-cases (order_of level)) [
  | inl unknown ↦ absurd (ground arith)
  | inr (n, e) ↦
      IsDominant-cons best level (better best level n)
        (better_cases best level n (rank_known level n e))
        (dominant_from-IsDominant (better best level n) levels (ground arith))
]

-- Over known levels the loop returns.
pub dominant_from_total :
    (best : String) (levels : List String)
    → All (λ l. order_of l ≢ none) levels
    → (r : String) × (dominant_from best levels ≡ ok r)
unfolding dominant_from
dominant_from_total best [] h = (best, refl)
dominant_from_total best (level ∷ levels) (known, h) = elim (Option-cases (order_of level)) [
  | inl unknown ↦ absurd (known unknown)
  | inr (n, e) ↦
      let (r, p) = dominant_from_total (better best level n) levels h in (r, ground arith)
]

-- The strongest completed level: for levels that are all in VERIFICATION_ORDER the function
-- returns, no level of the list is above the result, and the result is "untested" or a level of the
-- list that is strictly above "untested" (so a failed elaboration is never the result).
pub dominant_verification_level-IsDominant :
    (levels : List String)
    → All (λ l. order_of l ≢ none) levels
    → (r : String) × (dominant_verification_level levels ≡ ok r) × IsDominant "untested" levels r
unfolding dominant_verification_level
dominant_verification_level-IsDominant levels known =
    let (r, e) = dominant_from_total "untested" levels known in
    (r, e, dominant_from-IsDominant "untested" levels e)
