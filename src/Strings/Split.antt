-- ===== src/Strings/Split.antt =====
-- Split at a separator, and texts that are put together with it.
use nadi_agent.Prelude.{
  ℕ, ◌≡◌, ◌∙◌, ap, refl, false, All, List, [], ◌∷◌, ◌++◌, Runes, arith, ◌==◌, if_cases,
}
use nadi_agent.Strings.{split, on_first}

on_first-cons :
    (c : ℕ) (ls : List Runes) → (m : Runes) × (ms : List Runes) × (on_first c ls ≡ m ∷ ms)
on_first-cons c [] = (c ∷ [], [], refl)
on_first-cons c (l ∷ ls) = (c ∷ l, ls, refl)

-- There is always a first part.
split-cons : (sep : ℕ) (s : Runes) → (l : Runes) × (ls : List Runes) × (split sep s ≡ l ∷ ls)
unfolding split
split-cons sep [] = ([], [], refl)
split-cons sep (c ∷ s) =
    if_cases (λ ps. (l : Runes) × (ls : List Runes) × (ps ≡ l ∷ ls)) (c == sep) _ _
      (λ _. ([], split sep s, refl)) (λ _. on_first-cons c (split sep s))

-- The parts of two texts with a separator between them.
pub split-append_sep :
    (sep : ℕ) (s t : Runes) → split sep (s ++ sep ∷ t) ≡ split sep s ++ split sep t
unfolding split
split-append_sep sep [] t = ground arith
split-append_sep sep (c ∷ s) t =
    let (l, ls, e) = split-cons sep s in ground (arith, split-append_sep sep s t, e)

-- A text without the separator is one part.
pub split-one : (sep : ℕ) (s : Runes) → All (λ c. (c == sep) ≡ false) s → split sep s ≡ s ∷ []
unfolding split
split-one sep [] h = refl
split-one sep (c ∷ s) (hc, h) = rw (hc, split-one sep s h) refl

-- The first part.
pub split-part :
    (sep : ℕ) (s t : Runes)
    → All (λ c. (c == sep) ≡ false) s
    → split sep (s ++ sep ∷ t) ≡ s ∷ split sep t
split-part sep s t h = split-append_sep sep s t ∙ ap (λ ls. ls ++ split sep t) (split-one sep s h)
