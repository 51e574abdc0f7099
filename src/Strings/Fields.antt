-- ===== src/Strings/Fields.antt =====
-- The fields of a text.
use nadi_agent.Prelude.{ℕ, ◌≢◌, Bool, true, false, List, [], ◌∷◌, Runes, All, if_cases}
use nadi_agent.Strings.{add_rune, fields_from, fields_func}

add_rune-nonempty :
    (c : ℕ) (r : List Runes × Bool) → All (λ f. f ≢ []) r.0 → All (λ f. f ≢ []) (add_rune c r).0
add_rune-nonempty c ([], true) h = ((λ p. cc), tt)
add_rune-nonempty c (f ∷ fs, true) (_, h) = ((λ p. cc), h)
add_rune-nonempty c (fs, false) h = ((λ p. cc), h)

fields_from-nonempty : (p : ℕ → Bool) (s : Runes) → All (λ f. f ≢ []) (fields_from p s).0
unfolding fields_from
fields_from-nonempty p [] = tt
fields_from-nonempty p (c ∷ s) =
    let h = fields_from-nonempty p s in
    if_cases (λ (r : List Runes × Bool). All (λ f. f ≢ []) r.0) (p c) _ _ (λ _. h)
      (λ _. add_rune-nonempty c (fields_from p s) h)

-- No field is empty.
pub fields_func-nonempty : (p : ℕ → Bool) (s : Runes) → All (λ f. f ≢ []) (fields_func p s)
unfolding fields_func
fields_func-nonempty p s = fields_from-nonempty p s
